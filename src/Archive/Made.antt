-- ===== src/Archive/Made.antt =====
-- archive/archive.go: the manifest of a `Write` that gave a receipt, over any stores.
use trail.Prelude.{◌+◌, ◌≡◌, sym, ap, not, Option, List, [], ◌∷◌, Text, length}
use trail.Payload.{Ref}
use trail.Payload.Store.{Stores, reader, read_limited}
use trail.Storage.{EventRecord}
use trail.Archive.{Manifest, Receipt, Library}
use trail.Archive.Io.{
  done, through, through_option, through_answer, through_read, through_test, done-injective,
  manifest_unverified, pure,
}
use trail.Archive.Write.{
  made_manifest, copy_events, Copied, write, write_batch, put_manifest, put_verified, encode_events,
  events_options, manifest_options, same_bytes,
}

module _ (S : Stores) (lib : Library) (archive : S.Handle) (sources : Text → Option S.Handle) where
  -- The manifest of a receipt, and the copies that it lists.
  pub record Made (events : List EventRecord) (receipt : Receipt) : Type 0 where
    pub content : Text
    pub events_ref : Ref
    pub before : S.State
    pub after : S.State
    pub copied : Copied
    pub copies : copy_events S lib archive sources events ([], []) before ≡ (after, done copied)
    pub made : receipt.manifest ≡ made_manifest lib content events events_ref copied.1

  -- The receipt has the manifest that was put.
  put_verified-manifest :
      (manifest : Manifest) (bytes : Text) (s s' : S.State) (receipt : Receipt)
      → put_verified S lib archive sources manifest bytes s ≡ (s', done receipt)
      → receipt.manifest ≡ manifest
  unfolding put_verified
  put_verified-manifest manifest bytes s s' receipt e =
      let (s1, ref, _, e1) =
        through_answer (S.put archive (reader bytes) manifest_options s) _ s' receipt e in
      let (opened, _, e2) = through_read s1 (S.open_object archive ref s1) _ s' receipt e1 in
      let (_, e3) =
        through_test (not (same_bytes (read_limited (length bytes + 1) opened) bytes))
          manifest_unverified (pure (record { manifest = manifest; manifest_ref = ref })) s1 s'
          receipt e2 in
      ap (λ (x : Receipt). x.manifest) (sym (done-injective e3))

  write_batch-Made :
      (events : List EventRecord) (s s' : S.State) (receipt : Receipt)
      → write_batch S lib archive sources events s ≡ (s', done receipt)
      → Made events receipt
  unfolding write_batch put_manifest
  write_batch-Made events s s' receipt e =
      let (content, _, e1) = through_option _ (encode_events lib events) _ s s' receipt e in
      let (s1, ref, _, e2) =
        through_answer (S.put archive (reader content) events_options s) _ s' receipt e1 in
      let (s2, copied, copies, e3) =
        through (copy_events S lib archive sources events ([], []) s1) _ s' receipt e2 in
      let (bytes, _, e4) =
        through_option _ (lib.encode_manifest (made_manifest lib content events ref copied.1)) _ s2
          s' receipt e3 in
      record {
        content = content;
        events_ref = ref;
        before = s1;
        after = s2;
        copied = copied;
        copies = copies;
        made =
            put_verified-manifest (made_manifest lib content events ref copied.1) bytes s2 s'
              receipt e4;
      }

  pub write-Made :
      (events : List EventRecord) (s s' : S.State) (receipt : Receipt)
      → write S lib archive sources events s ≡ (s', done receipt)
      → Made events receipt
  unfolding write
  write-Made [] s s' receipt e = absurd (cc)
  write-Made (v ∷ events) s s' receipt e = write_batch-Made (v ∷ events) s s' receipt e

-- ===== src/Archive/Steps.antt =====
-- archive/archive.go: the steps of `Write` that succeeded, and what they leave readable.
use trail.Prelude.{
  ◌+◌, ◌≡◌, refl, Bool, true, false, Option, some, List, [], ◌∷◌, Text, length, not, ap, ◌∙◌, ◌≢◌,
}
use mathlib.Core.Path.{subst}
use trail.Payload.{Ref}
use trail.Payload.Store.{
  Answer, found, Stream, PutOptions, reader, gzip, logical, read_limited, Stores, IsLawful,
}
use trail.Storage.{EventRecord, PayloadLink}
use trail.Archive.{PayloadEntry, Manifest, Receipt, Library}
use trail.Archive.Io.{
  Outcome, done, through, through_option, through_answer, through_read, through_test, answer-done,
  manifest_unverified, pure,
}
use trail.Archive.Write.{
  encode_events, made_manifest, same_content, options_of, copy_object, copy_payload, copy_link,
  copy_links, copy_events, put_verified, same_bytes, put_manifest, write_batch, write,
  events_options, manifest_options, Copied, has_key, link_key,
}

-- No other text has the checksum of this one.
abbrev pub Unique : Library → Text → Type 0
Unique lib content = (text : Text) → lib.sha256 text ≡ lib.sha256 content → text ≡ content

-- No other text has the checksum of the JSON of the events.
abbrev pub UniqueEvents : Library → List EventRecord → Type 0
UniqueEvents lib events =
    (content : Text) → encode_events lib events ≡ some content → Unique lib content

module _ (S : Stores) (lib : Library) (lawful : IsLawful S lib.gunzip lib.sha256) where
  abbrev pub Opens : S.Handle → Ref → Stream → S.State → Type 0
  Opens h ref r s = S.open_object h ref s ≡ found r

  abbrev Holds : S.Handle → Ref → Text → S.State → Type 0
  Holds h ref content s = lawful.Holds h ref content s

  -- A put that succeeded keeps what was held.
  put-Holds :
      (h to : S.Handle) (ref : Ref) (content : Text) (r : Stream) (options : PutOptions)
      (s s' : S.State) (a : Ref)
      → Unique lib content
      → Holds h ref content s
      → S.put to r options s ≡ (s', found a)
      → Holds h ref content s'
  put-Holds h to ref content r options s s' a unique holds e =
      subst (λ (x : S.State × Answer Ref). Holds h ref content (x.0)) e
        (lawful.Holds-put to h r options s ref content (unique r.bytes) holds)

  copy_object-Holds :
      (h from to : S.Handle) (ref source : Ref) (r : Text) (options : PutOptions) (s s' : S.State)
      (a : Ref)
      → Unique lib r
      → Holds h ref r s
      → copy_object S lib from source to options s ≡ (s', done a)
      → Holds h ref r s'
  unfolding copy_object
  copy_object-Holds h from to ref source r options s s' a unique opens e =
      let (r1, _, e1) = through_read s (S.open_object from source s) _ s' a e in
      let (content, _, e2) =
        through_option _ (logical lib.gunzip source.compression r1) _ s s' a e1 in
      put-Holds h to ref r content options s s' a unique opens (answer-done _ s' a e2)

  module _ (archive : S.Handle) (sources : Text → Option S.Handle) where
    module _ (h : S.Handle) (ref : Ref) (r : Text) (unique : Unique lib r) where
      copy_payload-Holds :
          (source : Ref) (s s' : S.State) (a : PayloadEntry)
          → Holds h ref r s
          → copy_payload S lib archive sources source s ≡ (s', done a)
          → Holds h ref r s'
      unfolding copy_payload
      copy_payload-Holds source s s' a opens e =
          let (from, _, e1) = through_option _ (sources source.store) _ s s' a e in
          let (s1, archived, e2, e3) =
            through (copy_object S lib from source archive (options_of source) s) _ s' a e1 in
          let (_, e4) = through_test (not (same_content archived source)) _ _ s1 s' a e3 in
          let moved =
            copy_object-Holds h from archive ref source r _ s s1 archived unique opens e2 in
          subst (λ (x : S.State × Outcome PayloadEntry). Holds h ref r (x.0)) e4 moved

      copy_link-Holds :
          (source : Ref) (seen : Bool) (c : Copied) (s s' : S.State) (d : Copied)
          → Holds h ref r s
          → copy_link S lib archive sources source seen c s ≡ (s', done d)
          → Holds h ref r s'
      unfolding copy_link
      copy_link-Holds source true c s s' d opens e =
          subst (λ (x : S.State × Outcome Copied). Holds h ref r (x.0)) e opens
      copy_link-Holds source false (seen, payloads) s s' d opens e =
          let (s1, a, e1, e2) = through (copy_payload S lib archive sources source s) _ s' d e in
          subst (λ (x : S.State × Outcome Copied). Holds h ref r (x.0)) e2
            (copy_payload-Holds source s s1 a opens e1)

      copy_links-Holds :
          (links : List PayloadLink) (c : Copied) (s s' : S.State) (d : Copied)
          → Holds h ref r s
          → copy_links S lib archive sources links c s ≡ (s', done d)
          → Holds h ref r s'
      unfolding copy_links
      copy_links-Holds [] c s s' d opens e =
          subst (λ (x : S.State × Outcome Copied). Holds h ref r (x.0)) e opens
      copy_links-Holds (link ∷ links) c s s' d opens e =
          let (s1, c1, e1, e2) =
            through (copy_link S lib archive sources link.ref (has_key (link_key link.ref) c.0) c s)
              (copy_links S lib archive sources links) s' d e in
          copy_links-Holds links c1 s1 s' d (copy_link-Holds link.ref _ c s s1 c1 opens e1) e2

      pub copy_events-Holds :
          (events : List EventRecord) (c : Copied) (s s' : S.State) (d : Copied)
          → Holds h ref r s
          → copy_events S lib archive sources events c s ≡ (s', done d)
          → Holds h ref r s'
      unfolding copy_events
      copy_events-Holds [] c s s' d opens e =
          subst (λ (x : S.State × Outcome Copied). Holds h ref r (x.0)) e opens
      copy_events-Holds (v ∷ events) c s s' d opens e =
          let (s1, c1, e1, e2) =
            through (copy_links S lib archive sources v.payloads c s)
              (copy_events S lib archive sources events) s' d e in
          copy_events-Holds events c1 s1 s' d (copy_links-Holds v.payloads c s s1 c1 opens e1) e2

    -- An object that is stored: its content is read back, and its reference tells the truth.
    pub record Stored (content compression : Text) (ref : Ref) (s : S.State) : Type 0 where
      pub stream : Stream
      pub opens : Opens archive ref stream s
      pub reads : logical lib.gunzip compression stream ≡ some (reader content)
      pub checksum : ref.sha256 ≡ lib.sha256 content
      pub compressed : ref.compression ≡ compression

    held-Stored :
        (content compression : Text) (ref : Ref) (s : S.State)
        → ref.sha256 ≡ lib.sha256 content
        → ref.compression ≡ compression
        → Holds archive ref content s
        → Stored content compression ref s
    held-Stored content compression ref s checksum compressed holds =
        let (r, opens, reads) = lawful.Holds-open archive ref content s holds in
        record {
          stream = r;
          opens = opens;
          reads =
              subst (λ (c : Text). logical lib.gunzip c r ≡ some (reader content)) compressed reads;
          checksum = checksum;
          compressed = compressed;
        }

    put-Stored :
        (content : Text) (options : PutOptions) (s s' : S.State) (ref : Ref)
        → S.put archive (reader content) options s ≡ (s', found ref)
        → Stored content options.compression ref s'
    put-Stored content options s s' ref e =
        let (checksum, _, compressed) = lawful.put_ref archive content options s s' ref e in
        held-Stored content options.compression ref s' checksum compressed
          (lawful.put-Holds archive content options s s' ref e)

    -- What `Write` did where it gave a receipt.
    pub record Written (events : List EventRecord) (s' : S.State) (receipt : Receipt) : Type 0 where
      pub content : Text
      pub events_ref : Ref
      pub before : S.State
      pub after : S.State
      pub copied : Copied
      pub encoded : encode_events lib events ≡ some content
      pub copies : copy_events S lib archive sources events ([], []) before ≡ (after, done copied)
      pub made : receipt.manifest ≡ made_manifest lib content events events_ref copied.1
      pub manifest : Text
      pub manifest_encoded : lib.encode_manifest receipt.manifest ≡ some manifest
      pub events_stored : Stored content gzip events_ref s'
      pub manifest_stored : Stored manifest [] receipt.manifest_ref s'

    abbrev KeepsHeld : S.State → S.State → Type 0
    KeepsHeld s s' =
        (h : S.Handle) (ref : Ref) (content : Text)
        → Unique lib content
        → Holds h ref content s
        → Holds h ref content s'

    -- What `put_manifest` did.
    record Put (manifest : Manifest) (bytes : Text) (s s' : S.State) (receipt : Receipt)
        : Type 0 where
      same : receipt.manifest ≡ manifest
      stored : Stored bytes [] receipt.manifest_ref s'
      keeps : KeepsHeld s s'

    put_verified-Put :
        (manifest : Manifest) (bytes : Text) (s s' : S.State) (receipt : Receipt)
        → put_verified S lib archive sources manifest bytes s ≡ (s', done receipt)
        → Put manifest bytes s s' receipt
    unfolding put_verified
    put_verified-Put manifest bytes s s' receipt e =
        let (s1, ref, put, e1) =
          through_answer (S.put archive (reader bytes) manifest_options s) _ s' receipt e in
        let (opened, _, e2) = through_read s1 (S.open_object archive ref s1) _ s' receipt e1 in
        let (_, e3) =
          through_test (not (same_bytes (read_limited (length bytes + 1) opened) bytes))
            manifest_unverified (pure (record { manifest = manifest; manifest_ref = ref })) s1 s'
            receipt e2 in
        let same_state : s1 ≡ s' = ap (λ (x : S.State × Outcome Receipt). x.0) e3 in
        let same_receipt : record { manifest = manifest; manifest_ref = ref } ≡ receipt = cc in
        subst (λ (x : Receipt). Put manifest bytes s s' x) same_receipt
          (subst
            (λ (x : S.State).
              Put manifest bytes s x (record { manifest = manifest; manifest_ref = ref }))
            same_state
            (record {
              same = refl;
              stored = put-Stored bytes manifest_options s s1 ref put;
              keeps = λ h other content unique holds.
                  put-Holds h archive other content (reader bytes) manifest_options s s1 ref unique
                    holds put;
            }))

    pub write_batch-Written :
        (events : List EventRecord) (s s' : S.State) (receipt : Receipt)
        → UniqueEvents lib events
        → write_batch S lib archive sources events s ≡ (s', done receipt)
        → Written events s' receipt
    unfolding write_batch put_manifest
    write_batch-Written events s s' receipt unique e =
        let (content, encoded, e1) = through_option _ (encode_events lib events) _ s s' receipt e in
        let (s1, ref, put, e2) =
          through_answer (S.put archive (reader content) events_options s) _ s' receipt e1 in
        let (s2, copied, copies, e3) =
          through (copy_events S lib archive sources events ([], []) s1) _ s' receipt e2 in
        let (bytes, manifest_encoded, e4) =
          through_option _ (lib.encode_manifest (made_manifest lib content events ref copied.1)) _
            s2 s' receipt e3 in
        let p : Put (made_manifest lib content events ref copied.1) bytes s2 s' receipt =
          put_verified-Put (made_manifest lib content events ref copied.1) bytes s2 s' receipt e4 in
        let (checksum, _, compressed) =
          lawful.put_ref archive content events_options s s1 ref put in
        let alone = unique content encoded in
        let held = lawful.put-Holds archive content events_options s s1 ref put in
        record {
          content = content;
          events_ref = ref;
          before = s1;
          after = s2;
          copied = copied;
          encoded = encoded;
          copies = copies;
          made = p.same;
          manifest = bytes;
          manifest_encoded = ap lib.encode_manifest p.same ∙ manifest_encoded;
          events_stored = held-Stored content gzip ref s' checksum compressed (
              p.keeps archive ref content alone (
                copy_events-Holds archive ref content alone events ([], []) s1 s2 copied held
                  copies));
          manifest_stored = p.stored;
        }

    pub write-Written :
        (events : List EventRecord) (s s' : S.State) (receipt : Receipt)
        → UniqueEvents lib events
        → write S lib archive sources events s ≡ (s', done receipt)
        → Written events s' receipt × (events ≢ [])
    unfolding write
    write-Written [] s s' receipt unique e = absurd (cc)
    write-Written (v ∷ events) s s' receipt unique e =
        (write_batch-Written (v ∷ events) s s' receipt unique e, λ p. absurd (cc))

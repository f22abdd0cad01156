-- ===== src/Archive/Write.antt =====
-- archive/archive.go: `BundleWriter.Write`.
use trail.Prelude.{
  ◌+◌, Bool, true, false, not, ◌&&◌, ◌||◌, Option, none, some, List, [], ◌∷◌, ◌++◌, map, Text,
  codes, text_eq, length,
}
use trail.Prelude.Int.{pos, eq_ℤ}
use trail.Id.{encode_id}
use trail.Payload.{Ref}
use trail.Payload.Hex.{checksum_text}
use trail.Payload.Store.{
  PutOptions, Stream, reader, plain_options, read_limited, Stores, gzip, logical,
}
use trail.Storage.{EventRecord, PayloadLink}
use trail.Archive.{version, PayloadEntry, Manifest, Receipt, Library}
use trail.Archive.Io.{
  Io, failed, pure, or_fail, answer, fail_if, ◌>>=◌, ◌>>◌, empty_batch, source_not_configured,
  payload_unverified, manifest_unverified, library_failed,
}

-- `link.Ref.Store + "\x00" + link.Ref.Key`
abbrev pub link_key : Ref → Text
link_key r = r.store ++ (0 ∷ r.key)

unfoldable pub has_key : Text → List Text → Bool
has_key key [] = false
has_key key (other ∷ keys) = text_eq key other || has_key key keys

abbrev pub append_line : Option Text → Option Text → Option Text
append_line (some line) (some rest) = some (line ++ (10 ∷ rest))
append_line _ _ = none

-- `enc.Encode(events[i])` for each event.
unfoldable pub encode_events : Library → List EventRecord → Option Text
encode_events lib [] = some []
encode_events lib (e ∷ events) = append_line (lib.encode_event e) (encode_events lib events)

abbrev pub event_id : EventRecord → Text
event_id e = encode_id e.id

unfoldable pub made_manifest :
    Library → Text → List EventRecord → Ref → List PayloadEntry → Manifest
made_manifest lib content events ref payloads = record {
  version = version;
  id = checksum_text (lib.sha256 content);
  created_at = lib.now;
  event_count = pos (length events);
  event_ids = map event_id events;
  events = ref;
  payloads = payloads;
}

-- `archived.SHA256 == link.Ref.SHA256 && archived.Size == link.Ref.Size`
unfoldable pub same_content : Ref → Ref → Bool
same_content a b = text_eq a.sha256 b.sha256 && eq_ℤ a.size b.size

-- The options with which a payload is put again.
abbrev pub options_of : Ref → PutOptions
options_of ref = record {
  content_type = ref.content_type;
  compression = ref.compression;
  retain_until = ref.retain_until;
  retention_class = ref.retention_class;
}

unfoldable pub same_bytes : Option Text → Text → Bool
same_bytes none data' = false
same_bytes (some verified) data' = text_eq verified data'

abbrev pub events_options : PutOptions
events_options = plain_options (codes "application/x-ndjson") gzip

abbrev pub manifest_options : PutOptions
manifest_options = plain_options (codes "application/vnd.trail.archive-manifest+json") []

-- The keys that were seen, and the entries of the manifest.
abbrev pub Copied : Type 0
Copied = List Text × List PayloadEntry

module _ (S : Stores) (lib : Library) where
  abbrev pub put_object : S.Handle → Stream → PutOptions → Io (S.State) Ref
  put_object store content options s = answer (S.put store content options s)

  abbrev pub open_stream : S.Handle → Ref → Io (S.State) Stream
  open_stream store ref s = answer (s, S.open_object store ref s)

  -- One payload of one store, copied to another.
  unfoldable pub copy_object : S.Handle → Ref → S.Handle → PutOptions → Io (S.State) Ref
  copy_object from ref to options = do
    r ← open_stream from ref
    content ← or_fail library_failed (logical lib.gunzip ref.compression r)
    put_object to content options

  module _ (archive : S.Handle) (sources : Text → Option S.Handle) where
    unfoldable pub copy_payload : Ref → Io (S.State) PayloadEntry
    copy_payload ref = do
      source ← or_fail source_not_configured (sources ref.store)
      archived ← copy_object source ref archive (options_of ref)
      fail_if (not (same_content archived ref)) payload_unverified
      pure (record { source = ref; archive = archived })

    -- The body of the loop over the links of an event.
    unfoldable pub copy_link : Ref → Bool → Copied → Io (S.State) Copied
    copy_link ref true copied = pure copied
    copy_link ref false (seen, payloads) = do
      entry ← copy_payload ref
      pure (link_key ref ∷ seen, payloads ++ entry ∷ [])

    unfoldable pub copy_links : List PayloadLink → Copied → Io (S.State) Copied
    copy_links [] copied = pure copied
    copy_links (link ∷ links) copied =
        copy_link link.ref (has_key (link_key link.ref) copied.0) copied >>= copy_links links

    unfoldable pub copy_events : List EventRecord → Copied → Io (S.State) Copied
    copy_events [] copied = pure copied
    copy_events (e ∷ events) copied = copy_links e.payloads copied >>= copy_events events

    -- The manifest is put, and read back.
    unfoldable pub put_verified : Manifest → Text → Io (S.State) Receipt
    put_verified manifest content = do
      ref ← put_object archive (reader content) manifest_options
      opened ← open_stream archive ref
      fail_if (not (same_bytes (read_limited (length content + 1) opened) content))
          manifest_unverified
      pure (record { manifest = manifest; manifest_ref = ref })

    unfoldable pub put_manifest : Manifest → Io (S.State) Receipt
    put_manifest manifest = do
      content ← or_fail library_failed (lib.encode_manifest manifest)
      put_verified manifest content

    unfoldable pub write_batch : List EventRecord → Io (S.State) Receipt
    write_batch events = do
      content ← or_fail library_failed (encode_events lib events)
      ref ← put_object archive (reader content) events_options
      copied ← copy_events events ([], [])
      put_manifest (made_manifest lib content events ref copied.1)

    -- `Write`
    unfoldable pub write : List EventRecord → Io (S.State) Receipt
    write [] s = (s, failed empty_batch)
    write (e ∷ events) s = write_batch (e ∷ events) s

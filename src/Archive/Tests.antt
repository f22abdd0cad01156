-- ===== src/Archive/Tests.antt =====
-- The store of files, an archive of two events with one payload, and its restore.
use trail.Prelude.{
  All, ◌≤◌, ◌≡◌, refl, Bool, true, false, Option, none, some, List, [], ◌∷◌, ◌++◌, Text, codes,
  length, replicate, arith, text_eq, text_eq_iff, contains,
}
use mathlib.Core.Path.{subst}
use trail.Prelude.Int.{pos, ◌+ℤ◌}
use trail.Payload.{Ref, zero_time}
use trail.Payload.Store.{Stream, PutOptions, Stores, IsLawful, gzip, read_limited}
use trail.Storage.{EventRecord}
use trail.Archive.{Manifest, Receipt, Library, version}
use trail.Storage.Recover.{stored}
use trail.Storage.{new_link, Delivery}
use trail.Wire.Tests.{sample_event, service}
use trail.Payload.Hex.{checksum_text}
use trail.Archive.Io.{done}
use trail.Archive.Write.{
  write, write_batch, encode_events, made_manifest, copy_events, copy_links, copy_link,
  copy_payload, copy_object, put_manifest, put_verified, same_content, same_bytes, has_key,
  event_id, events_options, manifest_options,
}
use trail.Archive.Steps.{UniqueEvents}
use trail.Id.{IsByte}
use trail.Payload.Files.{
  Disk, Os, renamed, ref_of, put_file, rename, open_file, open_at, file_path, find_file,
  remove_file, base, last_segment, trim_slashes, is_slash, is_separator, key_of, join_key,
}
use trail.Payload.Files.Lawful.{files, IsSound, files-IsLawful}
use trail.Archive.Scan.{Readable, ReadsBack}
use trail.Archive.RoundTrip.{read_events-write, chunk, ManifestReads}
use trail.Archive.Complete.{write-Archives, Archives}
use trail.Archive.Restored.{restore-write, Took}
use trail.Archive.Read.{
  invalid, lines_of, bounded_read, scan_line, scan_lines, check_scan, read_manifest, read_events,
  max_read, drop_cr,
}
use trail.Archive.Restore.{
  prepare, merge, restore_entry, restore_entries, need_links, need_events, next_of, restore, Target,
}

-- The lines of two events.
abbrev content : Text
content = codes "{}" ++ (10 ∷ codes "{}" ++ (10 ∷ []))

abbrev sum_if : Bool → Text
sum_if true = replicate 32 1
sum_if false = replicate 32 0

-- A checksum that tells the events from any other text.
abbrev checksum : Text → Text
checksum text = sum_if (text_eq text content)

abbrev gunzip : Stream → Option Stream
gunzip r = some r

-- A system where no call fails, and whose gzip changes nothing.
abbrev os : Os
os = record {
  creates = true;
  writes = true;
  syncs = true;
  stats = true;
  closes = true;
  renames = renamed;
  compress = λ text. text;
  sha256 = checksum;
}

abbrev stores : Stores
stores = files os gunzip

sum_if-size : (b : Bool) → length (sum_if b) ≡ 32
sum_if-size true = refl
sum_if-size false = refl

sum_if-bytes : (b : Bool) → All IsByte (sum_if b)
sum_if-bytes true = ground arith
sum_if-bytes false = ground arith

os-IsSound : IsSound os gunzip
os-IsSound = record {
  size = λ text. sum_if-size (text_eq text content);
  bytes = λ text. sum_if-bytes (text_eq text content);
  renames = refl;
  unzips = λ text. refl;
}

lawful : IsLawful stores gunzip checksum
lawful = files-IsLawful os gunzip os-IsSound

sum_if-true : (b : Bool) → sum_if b ≡ sum_if true → b ≡ true
sum_if-true true e = refl
sum_if-true false e = absurd (cc)

content-Unique : (text : Text) → checksum text ≡ sum_if true → text ≡ content
content-Unique text e = (text_eq_iff text content).0 (sum_if-true (text_eq text content) e)

some_eq : {a b : Text} → some a ≡ some b → a ≡ b
some_eq e = cc

abbrev no_options : PutOptions
no_options = record {
  content_type = [];
  compression = gzip;
  retain_until = zero_time;
  retention_class = [];
}

abbrev payload : Ref
payload = ref_of os (codes "p") no_options

abbrev delivery : Delivery
delivery = record {
  stream = codes "s";
  consumer = codes "c";
  stream_sequence = 1;
  consumer_sequence = 2;
  delivered = 1;
  received_at = pos 6;
}

abbrev event : EventRecord
event = record (stored sample_event service sample_event.id delivery) {
  payloads = record (new_link (codes "request")) { ref = payload } ∷ [];
}

abbrev events : List EventRecord
events = event ∷ event ∷ []

-- The library at a fixed manifest.
abbrev library : Manifest → Library
library manifest = record {
  sha256 = checksum;
  gunzip = gunzip;
  encode_event = λ e. some (codes "{}");
  decode_event = λ line. some event;
  encode_manifest = λ m. some (codes "m");
  decode_manifest = λ content. some manifest;
  now = pos 7;
  stopped = λ index. false;
}

abbrev copy : Ref
copy = ref_of os (codes "p") no_options

abbrev receipt : Receipt
receipt = record {
  manifest = record {
    version = version;
    id = checksum_text (checksum content);
    created_at = pos 7;
    event_count = pos 2;
    event_ids = event_id event ∷ event_id event ∷ [];
    events = ref_of os content events_options;
    payloads = record { source = payload; archive = copy } ∷ [];
  };
  manifest_ref = ref_of os (codes "m") manifest_options;
}

abbrev library_now : Library
library_now = library receipt.manifest

abbrev payload_file : Text × Text
payload_file = (payload.key, codes "p")

abbrev events_file : Text × Text
events_file = (receipt.manifest.events.key, content)

abbrev manifest_file : Text × Text
manifest_file = (receipt.manifest_ref.key, codes "m")

abbrev start : Disk
start = record { present = true; files = payload_file ∷ []; above = true; alone = false }

abbrev written : Disk
written = record {
  present = true;
  files = manifest_file ∷ payload_file ∷ events_file ∷ [];
  above = true;
  alone = false;
}

-- The payload is put again.
abbrev restored : Disk
restored = record {
  present = true;
  files = payload_file ∷ manifest_file ∷ events_file ∷ [];
  above = true;
  alone = false;
}

abbrev sources : Text → Option (Unit {0})
sources name = some tt

write_two : write stores library_now tt sources events start ≡ (written, done receipt)
unfolding write write_batch encode_events made_manifest copy_events copy_links copy_link
    copy_payload copy_object put_manifest put_verified same_content same_bytes has_key read_limited
    text_eq put_file rename open_file open_at file_path find_file remove_file base last_segment
    trim_slashes contains is_slash is_separator key_of join_key checksum_text
write_two = refl

reads_line : Readable library_now event
unfolding drop_cr
reads_line line e =
    subst (ReadsBack library_now event) (some_eq e)
      (record { one_line = omega arith; no_return = refl; fits = omega arith; decodes = refl })

events-Readable : All (Readable library_now) events
events-Readable = (reads_line, (reads_line, tt))

manifest_reads : ManifestReads stores library_now tt receipt.manifest
manifest_reads bytes e =
    subst (λ (b : Text). (length b ≤ max_read) × (some receipt.manifest ≡ some receipt.manifest))
      (some_eq e) (omega arith, refl)

unique_events : UniqueEvents library_now events
unfolding encode_events text_eq
unique_events content' e text same =
    subst (λ (c : Text). checksum text ≡ checksum c → text ≡ c) (some_eq e) (content-Unique text)
      same

read_events-write_example :
    (read_manifest stores library_now (some tt) receipt.manifest_ref written
      ≡ (written, done receipt.manifest))
    × (read_events stores library_now (some tt) receipt.manifest (pos 1) (pos 5) written
        ≡ (written, done (event ∷ [], true)))
read_events-write_example =
    read_events-write stores library_now tt lawful sources events 1 5 start written receipt
      (λ text. sum_if-size (text_eq text content)) unique_events (λ i. refl) events-Readable
      manifest_reads (omega arith) (omega arith) write_two

write-Archives_example : Archives stores library_now tt sources receipt.manifest events
write-Archives_example =
    write-Archives stores library_now tt sources events start written receipt write_two

abbrev target : Target stores library_now
target id chunk disk = (disk, pos (length chunk), none)

restore_first :
    restore stores library_now (some tt) sources (some target) receipt (pos 0) (pos 1) written ≡ (
      restored,
      record {
        archive_id = receipt.manifest.id;
        restored = pos 1;
        next_offset = pos 1;
        complete = false;
      },
      none,
    )
unfolding restore prepare merge read_manifest read_events invalid lines_of drop_cr bounded_read
    scan_line scan_lines check_scan restore_entry restore_entries need_links need_events next_of
    copy_object same_content has_key read_limited text_eq ◌+ℤ◌ put_file rename open_file open_at
    file_path find_file remove_file base last_segment trim_slashes contains is_slash is_separator
    key_of join_key checksum_text
restore_first = refl

restore-write_example :
    Took stores library_now tt sources target receipt 0
      (event ∷ [], false)
      restored
      (record {
        archive_id = receipt.manifest.id;
        restored = pos 1;
        next_offset = pos 1;
        complete = false;
      })
restore-write_example =
    restore-write stores library_now tt sources lawful sources events 0 1 start written restored
      receipt target _ (λ text. sum_if-size (text_eq text content)) unique_events (λ i. refl)
      events-Readable manifest_reads (omega arith) (omega arith) write_two restore_first

-- ===== src/Payload/Files/Tests.antt =====
-- A payload that is put under gzip, and an empty store.
use trail.Prelude.{none, ◌≡◌, refl, true, false, [], ◌∷◌, codes, replicate, arith, text_eq}
use trail.Payload.{Ref, no_ref}
use trail.Payload.Hex.{checksum_text}
use trail.Payload.Store.{
  PutOptions, plain_options, Stream, found, reader, missed, other_failure, gzip,
}
use trail.Payload.Files.{
  Disk, Os, renamed, put_file, rename, ref_of, key_of, remove_file, delete_file, store_name,
}
use trail.Payload.Files.Stored.{KeptUntilDeleted, put_file-KeptUntilDeleted, delete_dot}

abbrev os : Os
os = record {
  creates = true;
  writes = true;
  syncs = true;
  stats = true;
  closes = true;
  renames = renamed;
  compress = λ content. 31 ∷ content;
  sha256 = λ content. replicate 32 7;
}

abbrev empty_disk : Disk
empty_disk = record { present = true; files = []; above = true; alone = false }

abbrev zipped : PutOptions
zipped = plain_options (codes "text/plain") gzip

abbrev stored_ref : Ref
stored_ref = ref_of os (codes "hi") zipped

abbrev full_disk : Disk
full_disk = record {
  present = true;
  files = (key_of os gzip (codes "hi"), 31 ∷ codes "hi") ∷ [];
  above = true;
  alone = false;
}

put_hi : put_file os (reader (codes "hi")) zipped empty_disk ≡ (full_disk, found stored_ref)
unfolding put_file rename remove_file text_eq key_of checksum_text
put_hi = refl

put_file-KeptUntilDeleted_example :
    KeptUntilDeleted os (reader (codes "hi")) zipped stored_ref full_disk
put_file-KeptUntilDeleted_example =
    put_file-KeptUntilDeleted os (reader (codes "hi")) zipped empty_disk full_disk stored_ref refl
      (omega arith) refl put_hi

abbrev dot : Ref
dot = record no_ref { store = store_name; key = codes "." }

delete_dot_example :
    ((delete_file dot empty_disk).1 ≡ none)
    × ((o : Os) (r : Stream) (options : PutOptions)
        → (put_file o r options ((delete_file dot empty_disk).0)).1 ≡ missed other_failure)
delete_dot_example = delete_dot dot empty_disk refl refl refl refl

-- ===== src/Payload/Files/Stored.antt =====
-- payload/filesystem/filesystem.go: what `Put` stores, `Open` opens and `Delete` removes.
use trail.Prelude.{
  ℕ, ◌/◌, ◌%◌, ◌<◌, ◌≡◌, refl, ap, ◌∙◌, Bool, true, false, not, ◌&&◌, ◌||◌, Option, none, some,
  List, [], ◌∷◌, ◌++◌, Text, All, codes, text_eq, contains, text_eq_refl, get_or, length, ◌==◌,
  if◌then◌else◌, arith,
}
use mathlib.Core.Path.{subst}
use trail.Id.{IsByte}
use trail.Id.RoundTrip.{table_holds, table_lookup}
use trail.Payload.{Ref}
use trail.Payload.Hex.{hex_digits, checksum_text}
use trail.Payload.Store.{
  PutOptions, Stream, reader, Failure, Answer, found, missed, not_found, other_failure, gzip,
}
use trail.Payload.Files.{
  store_name, Disk, Rename, renamed, Os, find_file, remove_file, is_slash, is_separator, keep_char,
  trim_slashes, last_segment, or_slash, base, file_at, the_root, join_key, file_path, suffix_if,
  packed, key_of, ref_of, rename, put_file, open_at, open_file, delete_at, delete_file, unsupported,
}

-- A character that is no separator of paths.
abbrev plain : ℕ → Bool
plain c = not (is_separator c) && not (is_slash c)

abbrev digit_test : ℕ → Bool
digit_test n = plain (get_or hex_digits n 0) && not (get_or hex_digits n 0 == 46)

digit_table : table_holds digit_test 16 ≡ true
unfolding table_holds is_separator is_slash
digit_table = refl

digit_lem : (n : ℕ) → n < 16 → digit_test n ≡ true
digit_lem n h = table_lookup digit_test 16 n digit_table h

abbrev NoSeparator : Text → Type 0
NoSeparator text = All (λ (c : ℕ). plain c ≡ true) text

checksum_text-NoSeparator : (sum : Text) → All IsByte sum → NoSeparator (checksum_text sum)
unfolding checksum_text
checksum_text-NoSeparator [] h = tt
checksum_text-NoSeparator (b ∷ sum) (hb, hs) =
    let high = digit_lem (b / 16) (omega (arith, hb)) in
    let low = digit_lem (b % 16) (omega arith) in
    (ground (arith, high), (ground (arith, low), checksum_text-NoSeparator sum hs))

contains-NoSeparator : (text : Text) → NoSeparator text → contains is_separator text ≡ false
unfolding contains
contains-NoSeparator [] h = refl
contains-NoSeparator (c ∷ text) (hc, hs) = ground (arith, hc, contains-NoSeparator text hs)

contains-slash : (text : Text) → NoSeparator text → contains is_slash text ≡ false
unfolding contains
contains-slash [] h = refl
contains-slash (c ∷ text) (hc, hs) = ground (arith, hc, contains-slash text hs)

keep_char_lem : (c : ℕ) (text : Text) → plain c ≡ true → keep_char c text ≡ c ∷ text
keep_char_lem c [] h = ground (arith, h)
keep_char_lem c (d ∷ text) h = refl

trim_slashes_lem : (text : Text) → NoSeparator text → trim_slashes text ≡ text
unfolding trim_slashes
trim_slashes_lem [] h = refl
trim_slashes_lem (c ∷ text) (hc, hs) =
    ap (keep_char c) (trim_slashes_lem text hs) ∙ keep_char_lem c text hc

last_segment_lem :
    (c : ℕ) (text : Text) → NoSeparator (c ∷ text) → last_segment (c ∷ text) ≡ c ∷ text
unfolding last_segment
last_segment_lem c text (hc, hs) = ground (arith, hc, contains-slash text hs)

base_lem : (c : ℕ) (text : Text) → NoSeparator (c ∷ text) → base (c ∷ text) ≡ c ∷ text
unfolding base
base_lem c text h =
    ap (λ (t : Text). or_slash (last_segment t)) (trim_slashes_lem (c ∷ text) h)
    ∙ ap or_slash (last_segment_lem c text h)

-- A key of such characters whose first is no dot is the name of a file.
file_path-plain :
    (ref : Ref) (c : ℕ) (text : Text)
    → ref.store ≡ store_name
    → ref.key ≡ c ∷ text
    → NoSeparator (c ∷ text)
    → (c == 46) ≡ false
    → file_path ref ≡ some (file_at ref.key)
unfolding file_path join_key text_eq
file_path-plain ref c text e k h dot = ground (
  arith,
  e,
  k,
  text_eq_refl store_name,
  text_eq_refl (c ∷ text),
  base_lem c text h,
  contains-NoSeparator (c ∷ text) h,
  dot,
)

NoSeparator-append : (s t : Text) → NoSeparator s → NoSeparator t → NoSeparator (s ++ t)
NoSeparator-append [] t hs ht = ht
NoSeparator-append (c ∷ s) t (hc, hs) ht = (hc, NoSeparator-append s t hs ht)

suffix-NoSeparator : (b : Bool) → NoSeparator (suffix_if b)
unfolding is_separator is_slash
suffix-NoSeparator true = (refl, (refl, (refl, tt)))
suffix-NoSeparator false = tt

find_file-remove_file :
    (name : Text) (files : List (Text × Text)) → find_file name (remove_file name files) ≡ none
unfolding find_file remove_file
find_file-remove_file name [] = refl
find_file-remove_file name (file ∷ files) = ground (arith, find_file-remove_file name files)

pub key_path :
    (sum : Text) (zipped : Bool) (ref : Ref)
    → ref.store ≡ store_name
    → ref.key ≡ checksum_text sum ++ suffix_if zipped
    → length sum ≡ 32
    → All IsByte sum
    → file_path ref ≡ some (file_at ref.key)
unfolding checksum_text
key_path [] zipped ref e k size h = absurd (omega (arith, size))
key_path (b ∷ sum) zipped ref e k size (hb, hs) =
    let high = digit_lem (b / 16) (omega (arith, hb)) in
    file_path-plain ref (get_or hex_digits (b / 16) 0)
      (get_or hex_digits (b % 16) 0 ∷ checksum_text sum ++ suffix_if zipped) e k
      (NoSeparator-append (checksum_text (b ∷ sum)) (suffix_if zipped)
        (checksum_text-NoSeparator (b ∷ sum) (hb, hs)) (suffix-NoSeparator zipped))
      (ground (arith, high))

pub found-injective : {a b : Ref} → found a ≡ found b → a ≡ b
found-injective e = cc

pub put_done :
    (wrong : Bool) (d d' : Disk) (x : Disk × Answer Ref) (ref : Ref)
    → (if wrong then (d, missed other_failure) else x) ≡ (d', found ref)
    → (wrong ≡ false) × (x ≡ (d', found ref))
put_done true d d' x ref h = absurd (cc)
put_done false d d' x ref h = (refl, h)

-- What was put is opened with the bytes that were stored, and is gone once it is deleted.
abbrev pub KeptUntilDeleted : Os → Stream → PutOptions → Ref → Disk → Type 0
KeptUntilDeleted os r options ref d =
    (r.whole ≡ true)
    × (ref ≡ ref_of os r.bytes options)
    × (open_file ref d ≡ found (reader (packed os (text_eq options.compression gzip) r.bytes)))
    × ((delete_file ref d).1 ≡ none)
    × (open_file ref ((delete_file ref d).0) ≡ missed not_found)

renamed-KeptUntilDeleted :
    (os : Os) (r : Stream) (options : PutOptions) (d : Disk)
    → length (os.sha256 r.bytes) ≡ 32
    → All IsByte (os.sha256 r.bytes)
    → r.whole ≡ true
    → KeptUntilDeleted os r options
        (ref_of os r.bytes options)
        ((rename os renamed r.bytes options d).0)
unfolding open_file delete_file open_at delete_at rename find_file remove_file key_of
renamed-KeptUntilDeleted os r options d size bytes whole =
    let key = key_of os options.compression r.bytes in
    let path =
      key_path (os.sha256 r.bytes) (text_eq options.compression gzip) (ref_of os r.bytes options)
        refl refl size bytes in
    let same = text_eq_refl key in
    let gone = find_file-remove_file key d.files in
    (
      whole,
      refl,
      ground (arith, path, same),
      ground (arith, path, same),
      ground (arith, path, same, gone, find_file-remove_file key (remove_file key d.files)),
    )

pub rename_parts :
    (os : Os) (content : Text) (options : PutOptions) (d d' : Disk) (ref : Ref)
    → rename os renamed content options d ≡ (d', found ref)
    → ((rename os renamed content options d).0 ≡ d') × (ref_of os content options ≡ ref)
unfolding rename
rename_parts os content options d d' ref e =
    (ap (λ (x : Disk × Answer Ref). x.0) e, found-injective (ap (λ (x : Disk × Answer Ref). x.1) e))

-- Where the checksum is 32 bytes and the rename succeeds, a Put that gives a reference has read
-- its reader to the end; the reference holds the key, the sizes, the checksum and the options;
-- Open gives the bytes that were stored, compressed where that was asked for; Delete of the
-- reference succeeds, and then Open finds nothing.
pub put_file-KeptUntilDeleted :
    (os : Os) (r : Stream) (options : PutOptions) (d d' : Disk) (ref : Ref)
    → length (os.sha256 r.bytes) ≡ 32
    → All IsByte (os.sha256 r.bytes)
    → os.renames ≡ renamed
    → put_file os r options d ≡ (d', found ref)
    → KeptUntilDeleted os r options ref d'
unfolding put_file
put_file-KeptUntilDeleted os r options d d' ref size bytes rename_ok h =
    let wrong =
      unsupported options.compression
      || not (d.present && os.creates)
      || not (r.whole && os.writes)
      || not (os.syncs && os.stats && os.closes) in
    let (right, e) = put_done wrong d d' _ ref h in
    let e' = subst (λ (x : Rename). rename os x r.bytes options d ≡ (d', found ref)) rename_ok e in
    let kept = renamed-KeptUntilDeleted os r options d size bytes (ground (arith, right)) in
    let (same_disk, same_ref) = rename_parts os r.bytes options d d' ref e' in
    subst (λ (x : Ref). KeptUntilDeleted os r options x d') same_ref
      (subst (KeptUntilDeleted os r options (ref_of os r.bytes options)) same_disk kept)

dot_path :
    (ref : Ref) → ref.store ≡ store_name → ref.key ≡ codes "." → file_path ref ≡ some the_root
unfolding file_path join_key base last_segment trim_slashes contains is_slash is_separator text_eq
dot_path ref e k = ground (arith, e, k, text_eq_refl store_name)

absent_put :
    (os : Os) (r : Stream) (options : PutOptions) (d : Disk)
    → d.present ≡ false
    → (put_file os r options d).1 ≡ missed other_failure
unfolding put_file
absent_put os r options d h = ground (arith, h)

-- In an empty store, Delete of any reference of the store whose key is a dot succeeds and removes
-- the directory of the store, so that every later Put fails.
pub delete_dot :
    (ref : Ref) (d : Disk)
    → ref.store ≡ store_name
    → ref.key ≡ codes "."
    → d.present ≡ true
    → d.files ≡ []
    → ((delete_file ref d).1 ≡ none)
      × ((os : Os) (r : Stream) (options : PutOptions)
          → (put_file os r options ((delete_file ref d).0)).1 ≡ missed other_failure)
delete_dot ref d e k there empty =
    let gone : delete_file ref d ≡ (record d { present = false }, none) =
      unfold delete_file delete_at in ground (arith, dot_path ref e k, there, empty) in
    (
      ap (λ (x : Disk × Option Failure). x.1) gone,
      λ os r options.
          ap (λ (x : Disk × Option Failure). (put_file os r options (x.0)).1) gone
          ∙ absent_put os r options (record d { present = false }) refl,
    )

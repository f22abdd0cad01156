-- ===== src/Payload/Files.antt =====
-- payload/filesystem/filesystem.go: the store of payloads in the files of one directory.
pub mod Stored
pub mod Lawful
mod Tests
use trail.Prelude.{
  ℕ, Bool, true, false, not, ◌||◌, ◌&&◌, Option, none, some, List, [], ◌∷◌, ◌++◌, Text, codes,
  text_eq, contains, is_empty, length, ◌==◌, if◌then◌else◌,
}
use trail.Prelude.Int.{pos}
use trail.Payload.{Ref}
use trail.Payload.Hex.{checksum_text}
use trail.Payload.Store.{
  PutOptions, Stream, reader, Failure, Answer, found, missed, not_found, other_failure, gzip,
}

-- `"filesystem"`, the name that `New` gives to a store
abbrev pub store_name : Text
store_name = codes "filesystem"

-- The directory of the store: whether it exists, and its files by their names; of the directory
-- above, whether it exists, and whether it holds nothing else. The
-- temporary file of a call is left out: it is renamed or removed before the call ends, but stays
-- where the rename finds that the file exists.
pub record Disk : Type 0 where
  pub present : Bool
  pub files : List (Text × Text)
  pub above : Bool
  pub alone : Bool

-- The calls of package os that may fail in `Put`. A rename may also find that the file exists.
pub data Rename : Type 0 where
  renamed file_exists rename_failed : Rename

-- What the calls of one `Put` give, and the writer of gzip.
pub record Os : Type 0 where
  pub creates : Bool
  pub writes : Bool
  pub syncs : Bool
  pub stats : Bool
  pub closes : Bool
  pub renames : Rename
  pub compress : Text → Text
  pub sha256 : Text → Text

unfoldable pub find_file : Text → List (Text × Text) → Option Text
find_file name [] = none
find_file name (file ∷ files) =
    let rest = find_file name files in if text_eq name file.0 then some file.1 else rest

unfoldable pub remove_file : Text → List (Text × Text) → List (Text × Text)
remove_file name [] = []
remove_file name (file ∷ files) =
    let rest = remove_file name files in if text_eq name file.0 then rest else file ∷ rest

unfoldable pub is_slash : ℕ → Bool
is_slash c = c == b'/'

-- The characters of the literal `/\\`
unfoldable pub is_separator : ℕ → Bool
is_separator c = c == b'/' || c == 92

abbrev pub keep_char : ℕ → Text → Text
keep_char c [] = if is_slash c then [] else c ∷ []
keep_char c (d ∷ rest) = c ∷ d ∷ rest

unfoldable pub trim_slashes : Text → Text
trim_slashes [] = []
trim_slashes (c ∷ text) = keep_char c (trim_slashes text)

-- What stands behind the last slash.
unfoldable pub last_segment : Text → Text
last_segment [] = []
last_segment (c ∷ text) =
    let rest = last_segment text in
    if contains is_slash text then rest else if is_slash c then text else c ∷ text

abbrev pub or_slash : Text → Text
or_slash [] = codes "/"
or_slash (c ∷ text) = c ∷ text

-- `filepath.Base`
unfoldable pub base : Text → Text
base [] = codes "."
base (c ∷ text) = or_slash (last_segment (trim_slashes (c ∷ text)))

-- `filepath.Join(root, key)` for a key without slashes: a file of the directory, the directory
-- itself, or the one that it stands in.
pub data Location : Type 0 where
  file_at : Text → Location
  the_root : Location
  the_parent : Location

unfoldable pub join_key : Text → Location
join_key key =
    if text_eq key (codes ".")
    then the_root
    else if text_eq key (codes "..")
    then the_parent
    else file_at key

-- `path`; none is `ErrInvalidRef`.
unfoldable pub file_path : Ref → Option Location
file_path ref =
    if not (text_eq ref.store store_name)
      || is_empty ref.key
      || not (text_eq (base ref.key) ref.key)
      || contains is_separator ref.key
    then none
    else some (join_key ref.key)

-- The file of a key: what is compressed has a suffix.
abbrev pub suffix_if : Bool → Text
suffix_if true = codes ".gz"
suffix_if false = []

abbrev pub packed : Os → Bool → Text → Text
packed os true content = os.compress content
packed os false content = content

unfoldable pub key_of : Os → Text → Text → Text
key_of os compression content =
    checksum_text (os.sha256 content) ++ suffix_if (text_eq compression gzip)

abbrev pub ref_of : Os → Text → PutOptions → Ref
ref_of os content options = record {
  store = store_name;
  key = key_of os options.compression content;
  content_type = options.content_type;
  size = pos (length content);
  stored_size = pos (length (packed os (text_eq options.compression gzip) content));
  sha256 = os.sha256 content;
  compression = options.compression;
  retain_until = options.retain_until;
  retention_class = options.retention_class;
}

-- The rename, and the reference where it did not fail.
unfoldable pub rename : Os → Rename → Text → PutOptions → Disk → Disk × Answer Ref
rename os renamed content options d = (
  record d {
    files =
        (
          key_of os options.compression content,
          packed os (text_eq options.compression gzip) content,
        )
        ∷ remove_file (key_of os options.compression content) d.files;
  },
  found (ref_of os content options),
)
rename os file_exists content options d = (d, found (ref_of os content options))
rename os rename_failed content options d = (d, missed other_failure)

abbrev pub unsupported : Text → Bool
unsupported compression = not (is_empty compression || text_eq compression gzip)

-- `Put`: the file cannot be made where the directory is gone.
unfoldable pub put_file : Os → Stream → PutOptions → Disk → Disk × Answer Ref
put_file os r options d =
    if unsupported options.compression
      || not (d.present && os.creates)
      || not (r.whole && os.writes)
      || not (os.syncs && os.stats && os.closes)
    then (d, missed other_failure)
    else rename os os.renames r.bytes options d

abbrev read_file : Option Text → Answer Stream
read_file none = missed not_found
read_file (some content) = found (reader content)

-- A directory is opened, but no byte of it can be read.
abbrev directory : Stream
directory = record { bytes = []; whole = false }

unfoldable pub open_at : Option Location → Disk → Answer Stream
open_at none d = missed other_failure
open_at (some (file_at name)) d = read_file (find_file name d.files)
open_at (some the_root) d = if d.present then found directory else missed not_found
open_at (some the_parent) d = if d.above then found directory else missed not_found

-- `Open`
unfoldable pub open_file : Ref → Disk → Answer Stream
open_file ref d = open_at (file_path ref) d

abbrev remove_if : Option Text → Text → Disk → Disk × Option Failure
remove_if none name d = (d, some not_found)
remove_if (some _) name d = (record d { files = remove_file name d.files }, none)

-- `os.Remove` of the directory itself, which must be there and empty.
abbrev remove_root : Bool → List (Text × Text) → Disk → Disk × Option Failure
remove_root false files d = (d, some not_found)
remove_root true [] d = (record d { present = false }, none)
remove_root true (_ ∷ _) d = (d, some other_failure)

-- `os.Remove` of the directory above, which the directory of the store may be in.
abbrev remove_above : Disk → Disk × Option Failure
remove_above d =
    if not d.above
    then (d, some not_found)
    else if d.present || not d.alone
    then (d, some other_failure)
    else (record d { above = false }, none)

unfoldable pub delete_at : Option Location → Disk → Disk × Option Failure
delete_at none d = (d, some other_failure)
delete_at (some (file_at name)) d = remove_if (find_file name d.files) name d
delete_at (some the_root) d = remove_root d.present d.files d
delete_at (some the_parent) d = remove_above d

-- `Delete`, and its error
unfoldable pub delete_file : Ref → Disk → Disk × Option Failure
delete_file ref d = delete_at (file_path ref) d

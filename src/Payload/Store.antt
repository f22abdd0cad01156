-- ===== src/Payload/Store.antt =====
-- payload/payload.go: `PutOptions`, `Store`, and what the archive relies on in a payload store.
use trail.Prelude.{
  ℕ, ◌≡◌, Bool, true, false, Option, none, some, Text, codes, length, take, leb, if◌then◌else◌, [],
  text_eq,
}
use trail.Prelude.Int.{pos}
use trail.Payload.{Time, zero_time, Ref}

abbrev pub gzip : Text
gzip = codes "gzip"

pub record PutOptions : Type 0 where
  pub content_type : Text
  pub compression : Text
  pub retain_until : Time
  pub retention_class : Text

-- `payload.PutOptions{ContentType: contentType, Compression: compression}`
abbrev pub plain_options : Text → Text → PutOptions
plain_options content_type compression = record {
  content_type = content_type;
  compression = compression;
  retain_until = zero_time;
  retention_class = [];
}

-- What an `io.Reader` gives: the bytes, and whether they end at EOF and not at an error.
pub record Stream : Type 0 where
  pub bytes : Text
  pub whole : Bool

-- `bytes.NewReader(content)`
abbrev pub reader : Text → Stream
reader content = record { bytes = content; whole = true }

abbrev whole_of : Bool → Text → Option Text
whole_of true content = some content
whole_of false content = none

-- `io.ReadAll(io.LimitReader(r, n))`
unfoldable pub read_limited : ℕ → Stream → Option Text
read_limited n r =
    if leb n (length r.bytes) then some (take n r.bytes) else whole_of r.whole r.bytes

-- The errors that callers tell apart. Those of `payload` and of `storage` for what is not there
-- are one.
pub data Failure : Type 0 where
  not_found invalid_cursor other_failure : Failure

pub data Answer (A : Type 0) : Type 0 where
  found : A → Answer A
  missed : Failure → Answer A

-- The payload stores of one process. A handle is a `payload.Store` value; two of them may stand
-- for one store.
pub record Stores : Type 1 where
  pub State : Type 0
  pub Handle : Type 0
  pub put : Handle → Stream → PutOptions → State → State × Answer Ref
  pub open_object : Handle → Ref → State → Answer Stream

-- `gzip.NewReader`: none where the header is wrong.
abbrev pub Gunzip : Type 0
Gunzip = Stream → Option Stream

abbrev unzip : Gunzip → Bool → Stream → Option Stream
unzip gunzip true r = gunzip r
unzip gunzip false r = some r

-- The reader of the logical content of an object.
abbrev pub logical : Gunzip → Text → Stream → Option Stream
logical gunzip compression r = unzip gunzip (text_eq compression gzip) r

-- What a store promises of its objects. `Holds` says that it has an object of this content and
-- reference. A put makes it so, and gives a reference that tells the truth; an object that is held is
-- read back, and stays until it is deleted, unless a put has another content with its checksum.
pub record IsLawful (S : Stores) (gunzip : Gunzip) (sha256 : Text → Text) : Type 1 where
  pub Holds : S.Handle → Ref → Text → S.State → Type 0
  pub put-Holds :
      (h : S.Handle) (content : Text) (options : PutOptions) (s s' : S.State) (ref : Ref)
      → S.put h (reader content) options s ≡ (s', found ref)
      → Holds h ref content s'
  pub put_ref :
      (h : S.Handle) (content : Text) (options : PutOptions) (s s' : S.State) (ref : Ref)
      → S.put h (reader content) options s ≡ (s', found ref)
      → (ref.sha256 ≡ sha256 content)
        × (ref.size ≡ pos (length content))
        × (ref.compression ≡ options.compression)
  pub Holds-open :
      (h : S.Handle) (ref : Ref) (content : Text) (s : S.State)
      → Holds h ref content s
      → (r : Stream) × (S.open_object h ref s ≡ found r)
        × (logical gunzip ref.compression r ≡ some (reader content))
  pub Holds-put :
      (h h' : S.Handle) (r : Stream) (options : PutOptions) (s : S.State) (ref : Ref)
      (content : Text)
      → (sha256 r.bytes ≡ sha256 content → r.bytes ≡ content)
      → Holds h' ref content s
      → Holds h' ref content ((S.put h r options s).0)

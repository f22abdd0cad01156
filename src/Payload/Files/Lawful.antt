-- ===== src/Payload/Files/Lawful.antt =====
-- payload/filesystem/filesystem.go: the store of files keeps the promises that the archive relies on.
use trail.Prelude.{
  ℕ, ◌*◌, ◌≡◌, refl, sym, ap, ◌∙◌, Bool, true, false, not, ◌&&◌, ◌||◌, some, List, [], ◌∷◌, ◌++◌,
  Text, All, text_eq, text_eq_refl, text_eq_iff, length, take, drop, arith, Bool-cases, ◌⊎◌, inl,
  inr,
}
use mathlib.Core.Path.{subst}
use trail.Prelude.Int.{pos}
use trail.Id.{IsByte}
use trail.Payload.{Ref}
use trail.Payload.Hex.{checksum_text, decode_hex, decode_hex-checksum_text}
use trail.Payload.Store.{PutOptions, Stream, reader, found, gzip, Gunzip, logical, Stores, IsLawful}
use trail.Payload.Files.{
  store_name, Disk, Rename, renamed, Os, find_file, remove_file, suffix_if, packed, key_of, ref_of,
  rename, put_file, open_at, open_file, unsupported,
}
use trail.Payload.Files.Stored.{key_path, put_done, rename_parts}

take-append : (s t : Text) → take (length s) (s ++ t) ≡ s
take-append [] t = ground arith
take-append (c ∷ s) t = ap (λ (x : Text). c ∷ x) (take-append s t)

drop-append : (s t : Text) → drop (length s) (s ++ t) ≡ t
drop-append [] t = ground arith
drop-append (c ∷ s) t = drop-append s t

length-checksum_text : (sum : Text) → length (checksum_text sum) ≡ 2 * length sum
unfolding checksum_text
length-checksum_text [] = refl
length-checksum_text (b ∷ sum) = omega (arith, length-checksum_text sum)

some-injective : {a b : Text} → some a ≡ some b → a ≡ b
some-injective e = cc

suffix_if-injective : (p q : Bool) → suffix_if p ≡ suffix_if q → p ≡ q
suffix_if-injective true true e = refl
suffix_if-injective true false e = absurd (cc)
suffix_if-injective false true e = absurd (cc)
suffix_if-injective false false e = refl

-- A key says which checksum it is of, and whether the file is compressed.
key_parts :
    (a b : Text) (p q : Bool)
    → length a ≡ length b
    → All IsByte a
    → All IsByte b
    → checksum_text a ++ suffix_if p ≡ checksum_text b ++ suffix_if q
    → (a ≡ b) × (p ≡ q)
key_parts a b p q size ha hb e =
    let long : length (checksum_text a) ≡ length (checksum_text b) =
      omega (arith, length-checksum_text a, length-checksum_text b, size) in
    let front : checksum_text a ≡ checksum_text b =
      sym (take-append (checksum_text a) (suffix_if p))
      ∙ (ap (take (length (checksum_text a))) e
          ∙ (ap (λ (n : ℕ). take n (checksum_text b ++ suffix_if q)) long
              ∙ take-append (checksum_text b) (suffix_if q))) in
    let back : suffix_if p ≡ suffix_if q =
      sym (drop-append (checksum_text a) (suffix_if p))
      ∙ (ap (drop (length (checksum_text a))) e
          ∙ (ap (λ (n : ℕ). drop n (checksum_text b ++ suffix_if q)) long
              ∙ drop-append (checksum_text b) (suffix_if q))) in
    (
      some-injective (
          sym (decode_hex-checksum_text a ha)
          ∙ (ap decode_hex front ∙ decode_hex-checksum_text b hb)),
      suffix_if-injective p q back,
    )

find_file-other :
    (name other : Text) (files : List (Text × Text))
    → text_eq name other ≡ false
    → find_file name (remove_file other files) ≡ find_file name files
unfolding find_file remove_file
find_file-other name other [] h = refl
find_file-other name other (file ∷ files) h =
    let rest = find_file-other name other files h in
    elim (Bool-cases (text_eq other file.0)) [
      | inl same ↦
          (let missed : text_eq name file.0 ≡ false =
              subst (λ (x : Text). text_eq name x ≡ false) ((text_eq_iff other file.0).0 same) h in
            ground (arith, same, missed, rest))
      | inr differs ↦ ground (arith, differs, rest)
    ]

module _ (os : Os) (gunzip : Gunzip) where
  abbrev pub files : Stores
  files = record {
    State = Disk;
    Handle = Unit {0};
    put = λ h r options d. put_file os r options d;
    open_object = λ h ref d. open_file ref d;
  }

  -- What the package relies on: a checksum is 32 bytes, a rename succeeds and replaces the file,
  -- and gzip reads what it has written.
  pub record IsSound : Type 0 where
    pub size : (text : Text) → length (os.sha256 text) ≡ 32
    pub bytes : (text : Text) → All IsByte (os.sha256 text)
    pub renames : os.renames ≡ renamed
    pub unzips : (text : Text) → gunzip (reader (os.compress text)) ≡ some (reader text)

  -- The directory has the file of this content.
  record Holds (ref : Ref) (content : Text) (d : Disk) : Type 0 where
    store : ref.store ≡ store_name
    key : ref.key ≡ key_of os ref.compression content
    file :
        find_file (key_of os ref.compression content) d.files
        ≡ some (packed os (text_eq ref.compression gzip) content)

  -- A put leaves the disk, or makes the file of its content.
  abbrev stored_files : Text → PutOptions → Disk → List (Text × Text)
  stored_files content options d =
      (key_of os options.compression content, packed os (text_eq options.compression gzip) content)
      ∷ remove_file (key_of os options.compression content) d.files

  module _ (sound : IsSound) where
    put_renamed :
        (r : Stream) (options : PutOptions) (d d' : Disk) (ref : Ref)
        → put_file os r options d ≡ (d', found ref)
        → (d'.files ≡ stored_files r.bytes options d) × (ref ≡ ref_of os r.bytes options)
    unfolding put_file rename
    put_renamed r options d d' ref e =
        let wrong =
          unsupported options.compression
          || not (d.present && os.creates)
          || not (r.whole && os.writes)
          || not (os.syncs && os.stats && os.closes) in
        let (_, e1) = put_done wrong d d' _ ref e in
        let e2 =
          subst (λ (x : Rename). rename os x r.bytes options d ≡ (d', found ref)) sound.renames
            e1 in
        let (same, same_ref) = rename_parts os r.bytes options d d' ref e2 in
        (sym (ap (λ (x : Disk). x.files) same), sym same_ref)

    put-Holds :
        (content : Text) (options : PutOptions) (d d' : Disk) (ref : Ref)
        → put_file os (reader content) options d ≡ (d', found ref)
        → Holds ref content d'
    unfolding find_file
    put-Holds content options d d' ref e =
        let (same, same_ref) = put_renamed (reader content) options d d' ref e in
        subst (λ (x : Ref). Holds x content d') (sym same_ref)
          (record {
            store = refl;
            key = refl;
            file = ground (arith, same, text_eq_refl (key_of os options.compression content));
          })

    unpacked :
        (compression content : Text)
        → logical gunzip compression (reader (packed os (text_eq compression gzip) content))
          ≡ some (reader content)
    unpacked compression content = elim (Bool-cases (text_eq compression gzip)) [
      | inl zipped ↦ rw zipped (sound.unzips content)
      | inr plain ↦ rw plain refl
    ]

    Holds-open :
        (ref : Ref) (content : Text) (d : Disk)
        → Holds ref content d
        → (r : Stream) × (open_file ref d ≡ found r)
          × (logical gunzip ref.compression r ≡ some (reader content))
    unfolding open_file open_at
    Holds-open ref content d h =
        let path =
          key_path (os.sha256 content) (text_eq ref.compression gzip) ref h.store
            (unfold key_of in h.key) (sound.size content) (sound.bytes content) in
        let file : find_file ref.key d.files
            ≡ some (packed os (text_eq ref.compression gzip) content) =
          ap (λ (k : Text). find_file k d.files) h.key ∙ h.file in
        (
          reader (packed os (text_eq ref.compression gzip) content),
          ground (arith, path, file),
          unpacked ref.compression content,
        )

    put_disk :
        (r : Stream) (options : PutOptions) (d : Disk)
        → ((put_file os r options d).0 ≡ d)
          ⊎ ((put_file os r options d).0.files ≡ stored_files r.bytes options d)
    unfolding put_file rename
    put_disk r options d =
        let wrong =
          unsupported options.compression
          || not (d.present && os.creates)
          || not (r.whole && os.writes)
          || not (os.syncs && os.stats && os.closes) in
        elim (Bool-cases wrong) [
          | inl bad ↦ inl (ground (arith, bad))
          | inr right ↦ inr (ground (arith, right, sound.renames))
        ]

    kept_file :
        (r : Stream) (options : PutOptions) (d : Disk) (ref : Ref) (content : Text)
        → (os.sha256 r.bytes ≡ os.sha256 content → r.bytes ≡ content)
        → Holds ref content d
        → find_file (key_of os ref.compression content) (stored_files r.bytes options d)
          ≡ some (packed os (text_eq ref.compression gzip) content)
    unfolding find_file
    kept_file r options d ref content alone h =
        let name = key_of os ref.compression content in
        let made = key_of os options.compression r.bytes in
        elim (Bool-cases (text_eq name made)) [
          | inl same ↦
              (let (sums, flags) =
                  key_parts (os.sha256 content) (os.sha256 r.bytes) (text_eq ref.compression gzip)
                    (text_eq options.compression gzip)
                    (sound.size content ∙ sym (sound.size r.bytes)) (sound.bytes content)
                    (sound.bytes r.bytes) (unfold key_of in (text_eq_iff name made).0 same) in
                let file : packed os (text_eq options.compression gzip) r.bytes
                    ≡ packed os (text_eq ref.compression gzip) content =
                  ap (λ (z : Bool). packed os z r.bytes) (sym flags)
                  ∙ ap (packed os (text_eq ref.compression gzip)) (alone (sym sums)) in
                ground (arith, same, file))
          | inr differs ↦ ground (arith, differs, find_file-other name made d.files differs, h.file)
        ]

    Holds-put :
        (r : Stream) (options : PutOptions) (d : Disk) (ref : Ref) (content : Text)
        → (os.sha256 r.bytes ≡ os.sha256 content → r.bytes ≡ content)
        → Holds ref content d
        → Holds ref content ((put_file os r options d).0)
    Holds-put r options d ref content alone h = elim (put_disk r options d) [
      | inl same ↦ subst (Holds ref content) (sym same) h
      | inr made ↦ record {
        store = h.store;
        key = h.key;
        file =
            ap (find_file (key_of os ref.compression content)) made
            ∙ kept_file r options d ref content alone h;
      }
    ]

    pub files-IsLawful : IsLawful files gunzip os.sha256
    files-IsLawful = record {
      Holds = λ h ref content d. Holds ref content d;
      put-Holds = λ h content options d d' ref e. put-Holds content options d d' ref e;
      put_ref = λ h content options d d' ref e.
          let (_, same) = put_renamed (reader content) options d d' ref e in
          subst
            (λ (x : Ref).
              (x.sha256 ≡ os.sha256 content)
              × (x.size ≡ pos (length content))
              × (x.compression ≡ options.compression))
            (sym same) (refl, refl, refl);
      Holds-open = λ h ref content d holds. Holds-open ref content d holds;
      Holds-put =
          λ h h' r options d ref content alone holds. Holds-put r options d ref content alone holds;
    }

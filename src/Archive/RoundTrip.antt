-- ===== src/Archive/RoundTrip.antt =====
-- archive/archive.go: what `Write` writes, `ReadManifest` and `ReadEvents` read.
use trail.Prelude.{
  ℕ, zero, suc, ◌+◌, ◌≤◌, ◌≡◌, ◌≢◌, refl, sym, ap, ◌∙◌, Bool, false, Option, some, List, [], ◌∷◌,
  Text, All, take, drop, length, length-map, leb, text_eq, text_eq_refl, arith, is_empty,
}
use mathlib.Core.Path.{subst}
use native.Mathlib.Numerals.{unary_clauses}
use trail.Prelude.Int.{pos}
use trail.Payload.{Ref}
use trail.Payload.Hex.{checksum_text}
use trail.Payload.Store.{found, Stream, reader, read_limited, Stores, IsLawful, logical}
use trail.Storage.{EventRecord}
use trail.Archive.{version, PayloadEntry, Manifest, Receipt, Library}
use trail.Archive.Io.{done}
use trail.Archive.Write.{made_manifest, event_id, write}
use trail.Archive.Read.{
  max_read, invalid, scan_lines, check_scan, bounded_read, read_manifest, read_events, lines_of,
  scan,
}
use trail.Archive.Scan.{Readable, scan_encoded, take-nil, some-injective}
use trail.Archive.Steps.{UniqueEvents, Written, write-Written}

take_all : (n : ℕ) (text : Text) → length text ≤ n → take n text ≡ text
take_all n [] h = take-nil {0} n
take_all zero (c ∷ text) h = absurd (omega (arith, h))
take_all (suc n) (c ∷ text) h = ap (λ (t : Text). c ∷ t) (take_all n text (omega (arith, h)))

read_limited_lem :
    (n : ℕ) (text : Text) → length text ≤ n → read_limited n (reader text) ≡ some text
unfolding read_limited
read_limited_lem n text h = ground (arith, take_all n text h)

is_empty-checksum_text : (sum : Text) → length sum ≡ 32 → is_empty (checksum_text sum) ≡ false
unfolding checksum_text
is_empty-checksum_text [] h = absurd (omega (arith, h))
is_empty-checksum_text (b ∷ sum) h = refl

-- A manifest that `Write` made is valid.
made_manifest-invalid :
    (lib : Library) (content : Text) (events : List EventRecord) (ref : Ref)
    (payloads : List PayloadEntry)
    → ((text : Text) → length (lib.sha256 text) ≡ 32)
    → events ≢ []
    → invalid (made_manifest lib content events ref payloads) ≡ false
unfolding invalid made_manifest
made_manifest-invalid lib content [] ref payloads hash some_events = absurd (some_events refl)
made_manifest-invalid lib content (e ∷ events) ref payloads hash some_events = ground (
  arith,
  text_eq_refl version,
  is_empty-checksum_text (lib.sha256 content) (hash content),
  length-map (e ∷ events) event_id,
)

-- A chunk of the events, and whether it is the last.
abbrev pub chunk : ℕ → ℕ → List EventRecord → List EventRecord × Bool
chunk offset limit events =
    let events' = take limit (drop offset events) in
    (events', leb (length events) (offset + length events'))

module _ (S : Stores) (lib : Library) (archive : S.Handle) where
  read_manifest_lem :
      (ref : Ref) (bytes : Text) (manifest : Manifest) (s : S.State)
      → S.open_object archive ref s ≡ found (reader bytes)
      → length bytes ≤ max_read
      → ref.sha256 ≡ lib.sha256 bytes
      → lib.decode_manifest bytes ≡ some manifest
      → invalid manifest ≡ false
      → read_manifest S lib (some archive) ref s ≡ (s, done manifest)
  unfolding read_manifest
  read_manifest_lem ref bytes manifest s opens fits checksum decodes valid = ground (
    arith,
    opens,
    read_limited_lem max_read bytes fits,
    text_eq_refl (lib.sha256 bytes),
    checksum,
    decodes,
    valid,
  )

  read_events_lem :
      (manifest : Manifest) (offset limit : ℕ) (r content : Stream) (s : S.State)
      → 1 ≤ limit
      → limit ≤ 10_000
      → S.open_object archive manifest.events s ≡ found r
      → logical lib.gunzip manifest.events.compression r ≡ some content
      → read_events S lib (some archive) manifest (pos offset) (pos limit) s
        ≡ scan S lib manifest offset limit content s
  unfolding read_events bounded_read
  read_events_lem manifest offset limit r content s low high opens unzips =
      ground (arith, opens, unzips, low, high)

  scan_lem :
      (manifest : Manifest) (offset limit : ℕ) (content : Text) (events : List EventRecord)
      (s : S.State)
      → manifest.event_count ≡ pos (length events)
      → manifest.events.sha256 ≡ lib.sha256 content
      → scan_lines lib offset limit (lines_of content) 0 []
        ≡ done (0 + length events, take limit (drop offset events))
      → scan S lib manifest offset limit (reader content) s ≡ (s, done (chunk offset limit events))
  unfolding check_scan
  scan_lem manifest offset limit content events s count checksum lines =
      ground (arith, count, checksum, lines, text_eq_refl (lib.sha256 content))

  -- The manifest's JSON, which the store keeps, decodes to the manifest.
  abbrev pub ManifestReads : Manifest → Type 0
  ManifestReads manifest =
      (bytes : Text)
      → lib.encode_manifest manifest ≡ some bytes
      → (length bytes ≤ max_read) × (lib.decode_manifest bytes ≡ some manifest)

  module _ (lawful : IsLawful S lib.gunzip lib.sha256) (sources : Text → Option S.Handle) where
    read_manifest-Written :
        (events : List EventRecord) (s : S.State) (receipt : Receipt)
        → ((text : Text) → length (lib.sha256 text) ≡ 32)
        → events ≢ []
        → ManifestReads receipt.manifest
        → Written S lib lawful archive sources events s receipt
        → read_manifest S lib (some archive) receipt.manifest_ref s ≡ (s, done receipt.manifest)
    unfolding text_eq
    read_manifest-Written events s receipt hash some_events reads w =
        let stored = w.manifest_stored in
        let (fits, decodes) = reads w.manifest w.manifest_encoded in
        read_manifest_lem receipt.manifest_ref w.manifest receipt.manifest s
          (stored.opens ∙ ap found (some-injective _ _ stored.reads)) fits stored.checksum decodes
          (ap invalid w.made
            ∙ made_manifest-invalid lib w.content events w.events_ref w.copied.1 hash some_events)

    read_events-Written :
        (events : List EventRecord) (offset limit : ℕ) (s : S.State) (receipt : Receipt)
        → ((i : ℕ) → lib.stopped i ≡ false)
        → All (Readable lib) events
        → 1 ≤ limit
        → limit ≤ 10_000
        → Written S lib lawful archive sources events s receipt
        → read_events S lib (some archive) receipt.manifest (pos offset) (pos limit) s
          ≡ (s, done (chunk offset limit events))
    unfolding made_manifest
    read_events-Written events offset limit s receipt running readable low high w =
        let stored = w.events_stored in
        let made = made_manifest lib w.content events w.events_ref w.copied.1 in
        let unzips : logical lib.gunzip w.events_ref.compression stored.stream
            ≡ some (reader w.content) =
          ap (λ (c : Text). logical lib.gunzip c stored.stream) stored.compressed ∙ stored.reads in
        let read =
          read_events_lem made offset limit stored.stream (reader w.content) s low high stored.opens
            unzips in
        let lines =
          scan_encoded lib offset limit running events w.content 0 [] readable w.encoded in
        subst
          (λ (m : Manifest).
            read_events S lib (some archive) m (pos offset) (pos limit) s
            ≡ (s, done (chunk offset limit events)))
          (sym w.made)
          (read
            ∙ scan_lem made offset limit w.content events s refl stored.checksum
                (simp unary_clauses at lines))

    -- Where the stores keep their promises, the checksum has 32 bytes, no other text has the
    -- checksum of the JSON of the events, no context ends, every event has a JSON line that the
    -- scanner can read back, the JSON of the manifest fits and decodes, and the limit is from 1 to
    -- 10,000: after a Write that succeeded, ReadManifest gives the manifest of the receipt, and
    -- ReadEvents gives the events from the offset on, up to the limit, and says that it is
    -- complete exactly when no event is left.
    pub read_events-write :
        (events : List EventRecord) (offset limit : ℕ) (s s' : S.State) (receipt : Receipt)
        → ((text : Text) → length (lib.sha256 text) ≡ 32)
        → UniqueEvents lib events
        → ((i : ℕ) → lib.stopped i ≡ false)
        → All (Readable lib) events
        → ManifestReads receipt.manifest
        → 1 ≤ limit
        → limit ≤ 10_000
        → write S lib archive sources events s ≡ (s', done receipt)
        → (read_manifest S lib (some archive) receipt.manifest_ref s' ≡ (s', done receipt.manifest))
          × (read_events S lib (some archive) receipt.manifest (pos offset) (pos limit) s'
              ≡ (s', done (chunk offset limit events)))
    read_events-write events offset limit s s' receipt hash unique running readable reads low high
          e =
        let (w, some_events) =
          write-Written S lib lawful archive sources events s s' receipt unique e in
        (
          read_manifest-Written events s' receipt hash some_events reads w,
          read_events-Written events offset limit s' receipt running readable low high w,
        )

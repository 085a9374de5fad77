-- ===== src/Tools/Edit/RoundTrip.antt =====
-- tile/tools/edit.py: a file keeps its mark and its line endings from reading to writing.
use piy.Base.{
  ℕ, suc, Text, [], ◌∷◌, ◌++◌, ◌≡◌, refl, ap, ◌∙◌, ◌≢◌, ◌⊎◌, inl, inr, true, false, Option, none,
  some, map, ltb, ◌==◌, if◌then◌else◌, starts_with, find, newline, arith, All,
}
use piy.Tools.Edit.Endings.{
  carriage_return, byte_order_mark, LineEnding, lf, crlf, strip_bom, ending_of, detect_line_ending,
  crlf_to_lf, cr_to_lf, normalize_to_lf, lf_to_crlf, restore_line_endings, load_file, written_text,
}

-- No carriage return.
abbrev pub LfOnly : Text → Type 0
LfOnly = All (λ c. c ≢ carriage_return)

-- Every newline comes with a carriage return in front of it, and every carriage return so.
pub data CrlfOnly : Text → Type 0 where
  end : CrlfOnly []
  char : (c : ℕ) (s : Text) → c ≢ carriage_return → c ≢ newline → CrlfOnly s → CrlfOnly (c ∷ s)
  line : (s : Text) → CrlfOnly s → CrlfOnly (carriage_return ∷ newline ∷ s)

normalize-LfOnly : (s : Text) → LfOnly s → normalize_to_lf s ≡ s
unfolding normalize_to_lf crlf_to_lf cr_to_lf
normalize-LfOnly [] h = refl
normalize-LfOnly (c ∷ s) h = ground (arith, normalize-LfOnly s)

find-LfOnly : (s : Text) → LfOnly s → find (carriage_return ∷ newline ∷ []) s ≡ none
unfolding find starts_with
find-LfOnly [] h = refl
find-LfOnly (c ∷ s) h = ground (arith, find-LfOnly s)

ending-LfOnly : (s : Text) → LfOnly s → detect_line_ending s ≡ lf
unfolding detect_line_ending ending_of
ending-LfOnly s h = rw (find-LfOnly s h) (none_first (find (newline ∷ []) s))
  where
    none_first : (o : Option ℕ) → ending_of none o ≡ lf
    none_first none = refl
    none_first (some k) = refl

-- The positions of the first line ending.
Crlf-find :
    {s : Text}
    → CrlfOnly s
    → (find (newline ∷ []) s ≡ none)
      ⊎ ((k : ℕ) × (find (carriage_return ∷ newline ∷ []) s ≡ some k)
          × (find (newline ∷ []) s ≡ some (suc k)))
unfolding find starts_with
Crlf-find end = inl refl
Crlf-find (char c s r n h) = ground (arith, Crlf-find h)
Crlf-find (line s h) = ground arith

restore-Crlf : {s : Text} → CrlfOnly s → lf_to_crlf (normalize_to_lf s) ≡ s
unfolding normalize_to_lf crlf_to_lf cr_to_lf lf_to_crlf starts_with
restore-Crlf end = refl
restore-Crlf (char c s r n h) = ground (arith, restore-Crlf h)
restore-Crlf (line s h) = ground (arith, restore-Crlf h)

-- A text of that kind without any newline has no carriage return either.
Crlf-LfOnly : {s : Text} → CrlfOnly s → find (newline ∷ []) s ≡ none → LfOnly s
unfolding find starts_with
Crlf-LfOnly end e = tt
Crlf-LfOnly (char c s r n h) e = (r, Crlf-LfOnly h (ground arith))
Crlf-LfOnly (line s h) e = ground arith

restored-LfOnly :
    (s : Text) → LfOnly s → restore_line_endings (normalize_to_lf s) (detect_line_ending s) ≡ s
unfolding restore_line_endings
restored-LfOnly s h = rw (ending-LfOnly s h, normalize-LfOnly s h) refl

restored-CrlfOnly :
    (s : Text) → CrlfOnly s → restore_line_endings (normalize_to_lf s) (detect_line_ending s) ≡ s
unfolding restore_line_endings detect_line_ending ending_of
restored-CrlfOnly s h = elim (Crlf-find h) [
  | inl absent ↦ unfold detect_line_ending in restored-LfOnly s (Crlf-LfOnly h absent)
  | inr (k, crlf_at, lf_at) ↦
      let first : ltb k (suc k) ≡ true = ground arith in rw (crlf_at, lf_at, first) (restore-Crlf h)
]

pub strip_bom-append : (raw : Text) → (strip_bom raw).0 ++ (strip_bom raw).1 ≡ raw
unfolding strip_bom
strip_bom-append [] = refl
strip_bom-append (c ∷ s) = ground arith

-- A file whose text behind the mark has one kind of line ending, "\n" alone or "\r\n" alone, is
-- written back as it was read.
pub load_file-written_text :
    (raw : Text)
    → LfOnly (strip_bom raw).1 ⊎ CrlfOnly (strip_bom raw).1
    → written_text (load_file raw) (load_file raw).content ≡ raw
unfolding load_file written_text
load_file-written_text raw one_kind =
    ap (λ s. (strip_bom raw).0 ++ s) restored ∙ strip_bom-append raw
  where
    restored :
        restore_line_endings
          (normalize_to_lf (strip_bom raw).1)
          (detect_line_ending (strip_bom raw).1)
        ≡ (strip_bom raw).1
    restored = elim one_kind [
      | inl h ↦ restored-LfOnly (strip_bom raw).1 h
      | inr h ↦ restored-CrlfOnly (strip_bom raw).1 h
    ]

normalize-lf_to_crlf : (s : Text) → LfOnly s → normalize_to_lf (lf_to_crlf s) ≡ s
unfolding normalize_to_lf crlf_to_lf cr_to_lf lf_to_crlf starts_with
normalize-lf_to_crlf [] h = refl
normalize-lf_to_crlf (c ∷ s) h = ground (arith, normalize-lf_to_crlf s)

-- Replacing every carriage return leaves none.
pub cr_to_lf-LfOnly : (s : Text) → LfOnly (cr_to_lf s)
unfolding cr_to_lf
cr_to_lf-LfOnly [] = tt
cr_to_lf-LfOnly (c ∷ s) = (ground arith, cr_to_lf-LfOnly s)

pub normalize_to_lf-LfOnly : (s : Text) → LfOnly (normalize_to_lf s)
unfolding normalize_to_lf
normalize_to_lf-LfOnly s = cr_to_lf-LfOnly (crlf_to_lf s)

strip_bom-cases :
    (raw : Text) → ((strip_bom raw).0 ≡ []) ⊎ ((strip_bom raw).0 ≡ byte_order_mark ∷ [])
unfolding strip_bom
strip_bom-cases [] = inl refl
strip_bom-cases (c ∷ s) = ground arith

strip_bom_marked : (s : Text) → strip_bom (byte_order_mark ∷ s) ≡ (byte_order_mark ∷ [], s)
unfolding strip_bom
strip_bom_marked s = refl

strip_bom_plain : (s : Text) → starts_with (byte_order_mark ∷ []) s ≡ false → strip_bom s ≡ ([], s)
unfolding strip_bom starts_with
strip_bom_plain [] h = refl
strip_bom_plain (c ∷ s) h = ground arith

restored-no_mark :
    (s : Text) (e : LineEnding)
    → starts_with (byte_order_mark ∷ []) s ≡ false
    → starts_with (byte_order_mark ∷ []) (restore_line_endings s e) ≡ false
unfolding restore_line_endings lf_to_crlf starts_with
restored-no_mark s lf h = h
restored-no_mark [] crlf h = refl
restored-no_mark (c ∷ s) crlf h = ground arith

normalize-restored :
    (s : Text) (e : LineEnding) → LfOnly s → normalize_to_lf (restore_line_endings s e) ≡ s
unfolding restore_line_endings
normalize-restored s lf h = normalize-LfOnly s h
normalize-restored s crlf h = normalize-lf_to_crlf s h

strip_bom-marked_text :
    (raw s : Text)
    → ((strip_bom raw).0 ≢ []) ⊎ (starts_with (byte_order_mark ∷ []) s ≡ false)
    → strip_bom ((strip_bom raw).0 ++ s) ≡ ((strip_bom raw).0, s)
strip_bom-marked_text raw s clear = elim (strip_bom-cases raw) [
  | inl none_there ↦ elim clear [
    | inl marked ↦ absurd (marked none_there)
    | inr plain ↦ rw none_there (strip_bom_plain s plain)
  ]
  | inr marked ↦ rw marked (strip_bom_marked s)
]

-- Writing lines without carriage returns to a loaded file and loading it again gives those lines
-- and the mark back, if the file has a mark or the lines do not start with one.
pub written_text-load_file :
    (raw s : Text)
    → LfOnly s
    → ((load_file raw).bom ≢ []) ⊎ (starts_with (byte_order_mark ∷ []) s ≡ false)
    → ((load_file (written_text (load_file raw) s)).content ≡ s)
      × ((load_file (written_text (load_file raw) s)).bom ≡ (load_file raw).bom)
unfolding load_file written_text
written_text-load_file raw s lines clear =
    let ending = detect_line_ending (strip_bom raw).1 in
    let restored = restore_line_endings s ending in
    let still_clear : ((strip_bom raw).0 ≢ [])
        ⊎ (starts_with (byte_order_mark ∷ []) restored ≡ false) =
      elim clear [ inl m ↦ inl m | inr p ↦ inr (restored-no_mark s ending p) ] in
    let stripped = strip_bom-marked_text raw restored still_clear in
    (
      ap (λ t. normalize_to_lf t.1) stripped ∙ normalize-restored s ending lines,
      ap (λ t. t.0) stripped,
    )

crlf_to_lf-eq-nil : (s : Text) → crlf_to_lf s ≡ [] → s ≡ []
unfolding crlf_to_lf starts_with
crlf_to_lf-eq-nil [] h = refl
crlf_to_lf-eq-nil (c ∷ []) h = ground arith
crlf_to_lf-eq-nil (c ∷ d ∷ s) h = ground (arith, crlf_to_lf-eq-nil (d ∷ s))

-- Normalization leaves nothing only of the empty text.
pub normalize_to_lf-eq-nil : (s : Text) → normalize_to_lf s ≡ [] → s ≡ []
unfolding normalize_to_lf cr_to_lf
normalize_to_lf-eq-nil s h = crlf_to_lf-eq-nil s (map-eq-nil (crlf_to_lf s) h)
  where
    map-eq-nil : (t : Text) → map (λ c. if c == carriage_return then newline else c) t ≡ [] → t ≡ []
    map-eq-nil [] h = refl
    map-eq-nil (c ∷ t) h = cc

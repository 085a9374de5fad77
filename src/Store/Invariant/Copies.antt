-- ===== src/Store/Invariant/Copies.antt =====
-- Rows read back as items, and items written as the rows of a fork, against the invariant.
use piy.Base.{
  ℕ, suc, ◌+◌, Text, text_eq, text_eq_refl, false, List, [], ◌∷◌, ◌++◌, select, All, ◌≡◌, refl, sym,
  ap, ◌∙◌, arith,
}
use mathlib.Core.Path.{subst}
use piy.Store.Errors.{Result, ok, err, bind_result, ok-injective}
use piy.Store.Models.{HistoryItem}
use piy.Store.Rows.{Codec, HistoryRow, history_values, history_from_row}
use piy.Store.Tables.{item_of}
use piy.Store.Statements.{copied_rows, map_rows}
use piy.Store.Invariant.{From, ItemLoads, ItemDecodes}
use piy.Store.Invariant.Deltas.{recorded, history_values-decodes}

-- Items at the positions n, n + 1, and so on.
abbrev pub ItemsFrom : ℕ → List HistoryItem → Type 0
ItemsFrom n [] = Unit
ItemsFrom n (i ∷ items) = (i.position ≡ n) × ItemsFrom (suc n) items

-- The items of rows, as they decode.
abbrev pub Decoded : Codec → List HistoryRow → List HistoryItem → Type 0
Decoded c [] [] = Unit
Decoded c [] (i ∷ items) = ⊥
Decoded c (row ∷ rows) [] = ⊥
Decoded c (row ∷ rows) (i ∷ items) = (history_from_row c row ≡ ok i) × Decoded c rows items

decoded_cons :
    (c : Codec) (row : HistoryRow) (rest : Result (List HistoryItem)) (head : Result HistoryItem)
    {items : List HistoryItem}
    → bind_result head (λ b. bind_result rest λ bs. ok (b ∷ bs)) ≡ ok items
    → (b : HistoryItem) × (bs : List HistoryItem) × (head ≡ ok b)
      × (rest ≡ ok bs)
      × (b ∷ bs ≡ items)
unfolding bind_result
decoded_cons c row (ok bs) (ok b) h = (b, bs, refl, refl, cc)
decoded_cons c row (ok bs) (err e) h = cc
decoded_cons c row (err e) (ok b) h = cc
decoded_cons c row (err e) (err e') h = cc

module _ (c : Codec) where
  pub map_rows-Decoded :
      (rows : List HistoryRow) {items : List HistoryItem}
      → map_rows (history_from_row c) rows ≡ ok items
      → Decoded c rows items
  unfolding map_rows
  map_rows-Decoded [] h = subst (Decoded c []) (ok-injective h) tt
  map_rows-Decoded (row ∷ rows) h =
      let (b, bs, e, es, same) =
        decoded_cons c row (map_rows (history_from_row c) rows) (history_from_row c row) h in
      subst (Decoded c (row ∷ rows)) same (e, map_rows-Decoded rows es)

  pub Decoded-map_rows :
      (rows : List HistoryRow) (items : List HistoryItem)
      → Decoded c rows items
      → map_rows (history_from_row c) rows ≡ ok items
  unfolding map_rows bind_result
  Decoded-map_rows [] [] h = refl
  Decoded-map_rows [] (i ∷ items) h = absurd h
  Decoded-map_rows (row ∷ rows) [] h = absurd h
  Decoded-map_rows (row ∷ rows) (i ∷ items) h = rw (h.0, Decoded-map_rows rows items h.1) refl

  pub Decoded-append :
      (rows : List HistoryRow) (items : List HistoryItem) (rows' : List HistoryRow)
      (items' : List HistoryItem)
      → Decoded c rows items
      → Decoded c rows' items'
      → Decoded c (rows ++ rows') (items ++ items')
  Decoded-append [] [] rows' items' h h' = h'
  Decoded-append [] (i ∷ items) rows' items' h h' = absurd h
  Decoded-append (row ∷ rows) [] rows' items' h h' = absurd h
  Decoded-append (row ∷ rows) (i ∷ items) rows' items' h h' =
      (h.0, Decoded-append rows items rows' items' h.1 h')

  -- Rows that decode have items.
  pub readable_items :
      (rows : List HistoryRow)
      → All (ItemDecodes c) rows
      → (items : List HistoryItem) × Decoded c rows items
  readable_items [] h = ([], tt)
  readable_items (row ∷ rows) h =
      let (items, d) = readable_items rows h.1 in (h.0.0 ∷ items, (h.0.1, d))

  history_from_row-position :
      (row : HistoryRow) {i : HistoryItem}
      → history_from_row c row ≡ ok i
      → i.position ≡ row.position
  unfolding history_from_row
  history_from_row-position row h = ground arith

  pub Decoded-From :
      (n : ℕ) (rows : List HistoryRow) (items : List HistoryItem)
      → From n rows
      → Decoded c rows items
      → ItemsFrom n items
  Decoded-From n [] [] h d = tt
  Decoded-From n [] (i ∷ items) h d = absurd d
  Decoded-From n (row ∷ rows) [] h d = absurd d
  Decoded-From n (row ∷ rows) (i ∷ items) h d =
      (history_from_row-position row d.0 ∙ h.0, Decoded-From (suc n) rows items h.1 d.1)

  pub Decoded-loads :
      (rows : List HistoryRow) (items : List HistoryItem)
      → All (ItemDecodes c) rows
      → Decoded c rows items
      → All (λ i. ItemLoads c i.item) items
  Decoded-loads [] [] h d = tt
  Decoded-loads [] (i ∷ items) h d = absurd d
  Decoded-loads (row ∷ rows) [] h d = absurd d
  Decoded-loads (row ∷ rows) (i ∷ items) h d = (
    subst (λ x. ItemLoads c x.item) (ok-injective (sym h.0.1 ∙ d.0)) h.0.2,
    Decoded-loads rows items h.1 d.1,
  )

module _ (c : Codec) (draw : ℕ → Text) (target : Text) where
  pub copied_rows-From :
      (offset n : ℕ) (items : List HistoryItem)
      → ItemsFrom n items
      → From n (select (item_of target) (copied_rows c draw target offset items))
  unfolding copied_rows history_values
  copied_rows-From offset n [] h = tt
  copied_rows-From offset n (i ∷ items) h =
      rw (text_eq_refl target) (h.0, copied_rows-From (offset + 1) (suc n) items h.1)

  pub copied_rows-all :
      (offset : ℕ) (items : List HistoryItem)
      → select (item_of target) (copied_rows c draw target offset items)
        ≡ copied_rows c draw target offset items
  unfolding copied_rows history_values
  copied_rows-all offset [] = refl
  copied_rows-all offset (i ∷ items) = rw (text_eq_refl target) (
      ap (λ r. history_values c (draw offset) i.item i.run_id target i.position i.created_at ∷ r)
        (copied_rows-all (offset + 1) items))

  pub copied_rows-none :
      (s : Text) (offset : ℕ) (items : List HistoryItem)
      → text_eq target s ≡ false
      → select (item_of s) (copied_rows c draw target offset items) ≡ []
  unfolding copied_rows history_values
  copied_rows-none s offset [] h = refl
  copied_rows-none s offset (i ∷ items) h = rw h (copied_rows-none s (offset + 1) items h)

  pub copied_rows-decode :
      (offset : ℕ) (items : List HistoryItem)
      → All (λ i. ItemLoads c i.item) items
      → All (ItemDecodes c) (copied_rows c draw target offset items)
  unfolding copied_rows
  copied_rows-decode offset [] h = tt
  copied_rows-decode offset (i ∷ items) h = (
    (
      recorded c (draw offset) i.item i.run_id target i.position i.created_at,
      history_values-decodes c (draw offset) i.item i.run_id target i.position i.created_at h.0,
      h.0,
    ),
    copied_rows-decode (offset + 1) items h.1,
  )

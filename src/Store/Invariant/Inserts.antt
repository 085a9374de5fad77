-- ===== src/Store/Invariant/Inserts.antt =====
-- The insert statements against the invariant, and rows in order of position.
use piy.Base.{
  ℕ, suc, ◌+◌, Text, text_eq, text_eq_iff, Bool, true, false, List, [], ◌∷◌, ◌++◌, any, select,
  length, All, All-append, All-map, any-append_left, count_next, select-append, ◌≡◌, refl, sym, ap,
  ◌∙◌, arith, le→leb, Bool-cases, inl, inr,
}
use mathlib.Core.Path.{subst}
use mathlib.Core.List.{append-nil, append_assoc}
use piy.Store.Rows.{Codec, SessionRow, RunRow, HistoryRow}
use piy.Store.Tables.{
  Db, session_is, run_is, active_in, item_of, guarded, session_allowed, run_allowed,
  history_allowed, insert_history_row, insert_history_rows, after_insert, next_position,
  order_by_position, insert_by_position,
}
use piy.Store.Post.{Post, After, Post-mono}
use piy.Store.Invariant.{
  From, Inv, item_is, UniqueItems, RunDecodes, ItemDecodes, RunOwned, ItemOwned, SessionValid,
}

-- A statement that its constraints allow.
pub guarded-Post :
    (allowed : Bool) (after before : Db)
    → Post
        (λ _ d. (allowed ≡ true) × (d ≡ after))
        (guarded allowed after before).0
        (guarded allowed after before).1
guarded-Post true after before = (refl, refl)
guarded-Post false after before = tt

pub From-append :
    (n m : ℕ) (xs ys : List HistoryRow)
    → m ≡ n + length xs
    → From n xs
    → From m ys
    → From n (xs ++ ys)
From-append n m [] ys e hx hy = subst (λ k. From k ys) (omega arith) hy
From-append n m (r ∷ xs) ys e hx hy = (hx.0, From-append (suc n) m xs ys (omega arith) hx.1 hy)

-- In contiguous rows the next position is behind the last.
pub next_position-From :
    (n : ℕ) (row : HistoryRow) (rows : List HistoryRow)
    → From n (row ∷ rows)
    → next_position (row ∷ rows) ≡ n + length (row ∷ rows)
unfolding next_position
next_position-From n row [] h = omega arith
next_position-From n row (r ∷ rows) h = omega (arith, next_position-From (suc n) r rows h.1)

-- Contiguous rows are in order.
pub order_by_position-From :
    (n : ℕ) (rows : List HistoryRow) → From n rows → order_by_position rows ≡ rows
unfolding order_by_position insert_by_position
order_by_position-From n [] h = refl
order_by_position-From n (r ∷ []) h = refl
order_by_position-From n (r ∷ s ∷ rows) h =
    ap (insert_by_position r) (order_by_position-From (suc n) (s ∷ rows) h.1)
    ∙ rw (le→leb r.position s.position (omega arith))

-- A text that equals the key of a new row: no row before it has that key.
moved_key :
    {A : Type 0} (p : Text → A → Bool) (xs : List A) (key id : Text)
    → any (p key) xs ≡ false
    → text_eq key id ≡ true
    → any (p id) xs ≡ false
moved_key p xs key id none_has same =
    subst (λ k. any (p k) xs ≡ false) ((text_eq_iff key id).0 same) none_has

-- The rows have new ids, each one its own.
abbrev pub KeysStay : List HistoryRow → List HistoryRow → Type 0
KeysStay old rows = UniqueItems old → UniqueItems (old ++ rows)

pub KeysStay-nil : (old : List HistoryRow) → KeysStay old []
KeysStay-nil old unique = subst UniqueItems (sym (append-nil old)) unique

KeysStay-cons :
    (old : List HistoryRow) (row : HistoryRow) (rows : List HistoryRow)
    → any (item_is row.id) old ≡ false
    → KeysStay (old ++ row ∷ []) rows
    → KeysStay old (row ∷ rows)
KeysStay-cons old row rows new later unique = subst UniqueItems (append_assoc old (row ∷ []) rows) (
    later (λ id. count_next (item_is id) old row (moved_key item_is old row.id id new) (unique id)))

module _ (c : Codec) (db : Db) (inv : Inv c db) where
  pub session-Inv :
      (row : SessionRow)
      → SessionValid row
      → session_allowed row db ≡ true
      → Inv c (record db { sessions = db.sessions ++ row ∷ [] })
  unfolding session_allowed
  session-Inv row valid allowed = record {
    one_active = inv.one_active;
    unique_runs = inv.unique_runs;
    unique_sessions = λ id.
        count_next (session_is id) db.sessions row
          (moved_key session_is db.sessions row.id id (ground arith)) (inv.unique_sessions id);
    unique_items = inv.unique_items;
    contiguous = inv.contiguous;
    sessions_valid = All-append SessionValid db.sessions (row ∷ []) inv.sessions_valid (valid, tt);
    runs_decode = inv.runs_decode;
    runs_owned =
        All-map _ _ (λ r h. any-append_left _ db.sessions (row ∷ []) h) db.runs inv.runs_owned;
    items_decode = inv.items_decode;
    items_owned =
        All-map _ _ (λ r h. (any-append_left _ db.sessions (row ∷ []) h.0, h.1)) db.history
          inv.items_owned;
  }

  pub run-Inv :
      (row : RunRow)
      → RunDecodes c row
      → run_allowed row db ≡ true
      → Inv c (record db { runs = db.runs ++ row ∷ [] })
  unfolding run_allowed
  run-Inv row decodes allowed = record {
    one_active = λ s.
        count_next (active_in s) db.runs row
          (λ h. moved_key active_in db.runs row.session_id s (ground arith) (ground arith))
          (inv.one_active s);
    unique_runs = λ id.
        count_next (run_is id) db.runs row (moved_key run_is db.runs row.id id (ground arith))
          (inv.unique_runs id);
    unique_sessions = inv.unique_sessions;
    unique_items = inv.unique_items;
    contiguous = inv.contiguous;
    sessions_valid = inv.sessions_valid;
    runs_decode = All-append (RunDecodes c) db.runs (row ∷ []) inv.runs_decode (decodes, tt);
    runs_owned =
        All-append (RunOwned db.sessions) db.runs (row ∷ []) inv.runs_owned (ground arith, tt);
    items_decode = inv.items_decode;
    items_owned =
        All-map _ _ (λ r h. (h.0, any-append_left _ db.runs (row ∷ []) h.1)) db.history
          inv.items_owned;
  }

  -- Rows behind the last position of one session.
  pub items-Inv :
      (rows : List HistoryRow)
      → ((s : Text) → From (length (select (item_of s) db.history)) (select (item_of s) rows))
      → All (ItemDecodes c) rows
      → All (ItemOwned db.sessions db.runs) rows
      → KeysStay db.history rows
      → Inv c (record db { history = db.history ++ rows })
  items-Inv rows next decode owned keys = record {
    one_active = inv.one_active;
    unique_runs = inv.unique_runs;
    unique_sessions = inv.unique_sessions;
    unique_items = keys inv.unique_items;
    contiguous = λ s. rw select-append (
        From-append 0 _ (select (item_of s) db.history) (select (item_of s) rows) (omega arith)
          (inv.contiguous s) (next s));
    sessions_valid = inv.sessions_valid;
    runs_decode = inv.runs_decode;
    runs_owned = inv.runs_owned;
    items_decode = All-append (ItemDecodes c) db.history rows inv.items_decode decode;
    items_owned = All-append (ItemOwned db.sessions db.runs) db.history rows inv.items_owned owned;
  }

-- Where the rows were all inserted, they stand behind the old ones, the keys that they refer to exist,
-- and their own are new.
abbrev pub Inserted : Db → List HistoryRow → Db → Type 0
Inserted db rows d =
    (d ≡ record db { history = db.history ++ rows })
    × All (ItemOwned db.sessions db.runs) rows
    × KeysStay db.history rows

Inserted-cons :
    (db : Db) (row : HistoryRow) (rows : List HistoryRow) (d : Db)
    → history_allowed row db ≡ true
    → Inserted (record db { history = db.history ++ row ∷ [] }) rows d
    → Inserted db (row ∷ rows) d
unfolding history_allowed
Inserted-cons db row rows d allowed h = (
  h.0 ∙ ap (λ l. record db { history = l }) (append_assoc db.history (row ∷ []) rows),
  (ground arith, h.1),
  KeysStay-cons db.history row rows (ground arith) h.2,
)

pub insert_history_rows-Inserted :
    (rows : List HistoryRow) (db : Db)
    → After (λ _ d. Inserted db rows d) (insert_history_rows rows) db
unfolding insert_history_rows insert_history_row
insert_history_rows-Inserted [] db =
    (ap (λ l. record db { history = l }) (sym (append-nil db.history)), tt, KeysStay-nil db.history)
insert_history_rows-Inserted (row ∷ rows) db = elim (Bool-cases (history_allowed row db)) [
  | inl allowed ↦
      rw (allowed, after_insert)
        (Post-mono (λ _ d. Inserted (record db { history = db.history ++ row ∷ [] }) rows d)
          (λ _ d. Inserted db (row ∷ rows) d) (λ _ d. Inserted-cons db row rows d allowed) _ _
          (insert_history_rows-Inserted rows (record db { history = db.history ++ row ∷ [] })))
  | inr refused ↦ rw (refused, after_insert) tt
]

-- ===== src/Matching/Apply/Admit.antt =====
-- The windows of matching/order_book.go, one for each order table: an order id is admitted once.
use native.Mathlib.Decide.{ℕ_discrete}
use cheetah_exchange.Prelude.{
  ℕ, ◌+◌, ◌<◌, ◌≡◌, sym, ap, subst, ◌∙◌, some, List, arith, ◌⊎◌, inl, inr, All, get_elem?, set,
  length, some_inj, get_elem?-total, get_elem?-set_self, get_elem?-set_ne, length-set,
  All-get_elem?, All-set, All-replicate, length-replicate,
}
use cheetah_exchange.Models.{table_order_split_count}
use cheetah_exchange.Matching.Window.{Window, u64, put, put_ok, new_window}
use cheetah_exchange.Matching.Window.Put.{IsWindow, Outcome, put_lem}
use cheetah_exchange.Matching.Window.Seen.{Seen, put_sees, new_window_lem}
use cheetah_exchange.Matching.Book.{table_index, new_windows, order_id_window_cap}
use cheetah_exchange.Matching.Apply.{admitted, refused, admit, note_id}

-- There is a window for each table, and each is well formed.
pub record AreWindows (ws : List Window) : Type 0 where
  pub enough : length ws ≡ table_order_split_count
  pub each : All IsWindow ws

-- The id has been noted by the window of its table, or lies below it.
abbrev pub SeenIn : List Window → ℕ → Type 0
SeenIn ws id = (w : Window) × (get_elem? ws (table_index id) ≡ some w) × Seen w id

pub new_windows-AreWindows : AreWindows (new_windows table_order_split_count)
unfolding new_windows
new_windows-AreWindows = record {
  enough = length-replicate {A = Window} table_order_split_count (new_window 0 order_id_window_cap);
  each =
      All-replicate IsWindow table_order_split_count (new_window 0 order_id_window_cap)
        (new_window_lem 0 order_id_window_cap (omega arith) (omega arith)).0;
}

module _ (ws : List Window) (ok : AreWindows ws) (id : ℕ) (small : id + 1 < u64) where
  window_of : (w : Window) × (get_elem? ws (table_index id) ≡ some w) × IsWindow w
  window_of =
      let (w, e) = get_elem?-total ws (table_index id) (omega (arith, ok.enough)) in
      (w, e, All-get_elem? IsWindow ws (table_index id) w ok.each e)

  -- What `admit` promises of an id that it lets on.
  pub record Admits (ws' : List Window) : Type 0 where
    pub admits : admit ws id ≡ admitted ws'
    pub are_windows : AreWindows ws'
    pub fresh : ¬ SeenIn ws id
    pub noted : SeenIn ws' id
    pub keeps : (x : ℕ) → SeenIn ws x → SeenIn ws' x

  module _ (w w' : Window) (at : get_elem? ws (table_index id) ≡ some w) (is_w : IsWindow w) where
    unseen : (¬ Seen w id) → ¬ SeenIn ws id
    unseen n (v, e, s) = n (subst (λ (z : Window). Seen z id) (some_inj (sym e ∙ at)) s)

    keeps_seen :
        ((x : ℕ) → Seen w x → Seen w' x)
        → (x : ℕ) → SeenIn ws x
        → SeenIn (set ws (table_index id) w') x
    keeps_seen f x (v, e, s) = elim (ℕ_discrete (table_index id) (table_index x)) [
      | yes same ↦
          let v_is : v ≡ w = some_inj (sym e ∙ (ap (λ (i : ℕ). get_elem? ws i) (sym same) ∙ at)) in
          (
            w',
            ap (λ (i : ℕ). get_elem? (set ws (table_index id) w') i) (sym same)
                ∙ get_elem?-set_self ws (table_index id) w' (omega (arith, ok.enough)),
            f x (subst (λ (z : Window). Seen z x) v_is s),
          )
      | no differ ↦ (v, get_elem?-set_ne ws (table_index id) (table_index x) w' differ ∙ e, s)
    ]

    admit_new : put w id ≡ put_ok w' → Admits (set ws (table_index id) w')
    unfolding admit
    admit_new e =
        let (n, s, f, is_w') = put_sees w w' id is_w small e in
        record {
          admits = rw (at, admit, e);
          are_windows = record {
            enough = length-set ws (table_index id) w' ∙ ok.enough;
            each = All-set IsWindow ws (table_index id) w' ok.each is_w';
          };
          fresh = unseen n;
          noted = (w', get_elem?-set_self ws (table_index id) w' (omega (arith, ok.enough)), s);
          keeps = keeps_seen f;
        }

  abbrev pub AdmitOutcome : Type 0
  AdmitOutcome = (SeenIn ws id × (admit ws id ≡ refused)) ⊎ ((ws' : List Window) × Admits ws')

  admit_at :
      (w : Window)
      → get_elem? ws (table_index id) ≡ some w
      → IsWindow w
      → Outcome w id
      → AdmitOutcome
  unfolding admit
  admit_at w at is_w (inl (low, e)) = inl ((w, at, inl low), rw (at, admit, e))
  admit_at w at is_w (inr (inl (held, e))) = inl ((w, at, inr held), rw (at, admit, e))
  admit_at w at is_w (inr (inr (low, clear, (w', a)))) =
      inr (set ws (table_index id) w', admit_new w w' at is_w a.accepted)

  -- An id that was seen is refused. Any other is admitted, and from then on it is seen, as is every
  -- id that was seen before. No window panics.
  pub admit_lem : AdmitOutcome
  admit_lem = let (w, e, is_w) = window_of in admit_at w e is_w (put_lem w is_w id small)

  -- Noting an id leaves well-formed windows that have seen it.
  pub note_id_lem :
      (ws' : List Window) × (note_id ws id ≡ some ws')
      × AreWindows ws'
      × SeenIn ws' id
      × ((x : ℕ) → SeenIn ws x → SeenIn ws' x)
  unfolding note_id
  note_id_lem = elim admit_lem [
    | inl (s, e) ↦ (ws, rw (e, note_id), ok, s, λ x h. h)
    | inr (ws', a) ↦ (ws', rw (a.admits, note_id), a.are_windows, a.noted, a.keeps)
  ]

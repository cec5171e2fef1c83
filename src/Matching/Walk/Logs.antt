-- ===== src/Matching/Walk/Logs.antt =====
-- The logs of the trades, in matching/order_book.go, are numbered without a gap.
use cheetah_exchange.Prelude.{ℕ, ◌≡◌, refl, sym, subst, ◌∙◌, List, [], ◌∷◌, inl, inr, Bool-cases}
use cheetah_exchange.Extern.Decimal.{Decimal, is_zero}
use cheetah_exchange.Matching.Log.{BookOrder}
use cheetah_exchange.Matching.Log.Sequence.{Numbered, last_seq, Numbered-append, last_seq-append}
use cheetah_exchange.Matching.Book.{next_seq}
use cheetah_exchange.Matching.Match.{match_logs, match_seq}
use cheetah_exchange.Matching.Walk.{Fill, maker_left, logs_of, log_seq_of}

module _ {D : Type 0} ⦃d : Decimal D⦄ where
  match_logs-Numbered :
      (p s ts : ℕ) (taker maker : BookOrder D) (size : D)
      → Numbered s (match_logs p s ts taker maker size)
        × (last_seq s (match_logs p s ts taker maker size) ≡ match_seq s maker)
  unfolding match_logs match_seq
  match_logs-Numbered p s ts taker maker size = elim (Bool-cases (is_zero maker.size)) [
    | inl z ↦ rw (z, match_logs, match_seq) ((refl, (refl, tt)), refl)
    | inr z ↦ rw (z, match_logs, match_seq) ((refl, tt), refl)
  ]

  pub logs_of-Numbered :
      (p s ts : ℕ) (fs : List (Fill D))
      → Numbered s (logs_of p s ts fs) × (last_seq s (logs_of p s ts fs) ≡ log_seq_of s fs)
  unfolding logs_of log_seq_of
  logs_of-Numbered p s ts [] = (tt, refl)
  logs_of-Numbered p s ts (f ∷ fs) =
      let here = match_logs p s ts f.taker (maker_left f) f.size in
      let rest = logs_of p (match_seq s (maker_left f)) (next_seq ts) fs in
      let (n, l) = match_logs-Numbered p s ts f.taker (maker_left f) f.size in
      let (ns, ls) = logs_of-Numbered p (match_seq s (maker_left f)) (next_seq ts) fs in
      (
        Numbered-append s here rest n (subst (λ (q : ℕ). Numbered q rest) (sym l) ns),
        last_seq-append s here rest
            ∙ (subst (λ (q : ℕ). last_seq q rest ≡ log_seq_of (match_seq s (maker_left f)) fs)
                (sym l) ls),
      )

-- ===== src/Log/Dispatch.antt =====
-- A dispatch keeps exactly the streams that are still read (src/server_log.rs).
use mathlib.Core.List.{reverse-append}
use smartdns_plus_ui.Base.{
  ℕ, suc, Bool, not, List, [], ◌∷◌, ◌++◌, ◌≡◌, refl, sym, ap, ◌∙◌, arith, inl, inr, if◌then◌else◌,
  ltb, Bool-cases, length, length-append, filter, map, is_empty, reverse, append_assoc,
}
use smartdns_plus_ui.Log.{Stream, stream_capacity, send_from, remove, remove_all, dispatch}

module _ {ℓ} {Msg : Type ℓ} where
  abbrev pub is_open : Stream Msg → Bool
  is_open s = not s.closed

  -- the message behind what is queued, where there is room
  unfoldable pub deliver : Msg → Stream Msg → Stream Msg
  deliver m s =
      if ltb (length s.queue) stream_capacity then record s { queue = s.queue ++ m ∷ [] } else s

  -- the streams after the loop, and the positions to remove, from the position `i` on
  abbrev after_send : Msg → List (Stream Msg) → List (Stream Msg)
  after_send m [] = []
  after_send m (s ∷ ss) = (if s.closed then s else deliver m s) ∷ after_send m ss

  abbrev closed_from : ℕ → List (Stream Msg) → List ℕ
  closed_from i [] = []
  closed_from i (s ∷ ss) = let rest = closed_from (suc i) ss in if s.closed then i ∷ rest else rest

  send_from_lem :
      (m : Msg) (ss : List (Stream Msg)) (i : ℕ)
      → send_from i m ss ≡ (after_send m ss, closed_from i ss)
  unfolding send_from deliver
  send_from_lem m [] i = refl
  send_from_lem m (s ∷ ss) i = ground (arith, send_from_lem m ss (suc i))

  remove_all-append :
      (is js : List ℕ) (ss : List (Stream Msg))
      → remove_all (is ++ js) ss ≡ remove_all js (remove_all is ss)
  unfolding remove_all
  remove_all-append [] js ss = refl
  remove_all-append (i ∷ is) js ss = remove_all-append is js (remove i ss)

  remove-append :
      (pre rest : List (Stream Msg)) (s : Stream Msg)
      → remove (length pre) (pre ++ s ∷ rest) ≡ pre ++ rest
  unfolding remove
  remove-append [] rest s = refl
  remove-append (p ∷ pre) rest s = ap (λ l. p ∷ l) (remove-append pre rest s)

  abbrev kept : Msg → List (Stream Msg) → List (Stream Msg)
  kept m ss = map (deliver m) (filter is_open ss)

  length-snoc :
      (pre : List (Stream Msg)) (s : Stream Msg) (i : ℕ)
      → length pre ≡ i
      → length (pre ++ s ∷ []) ≡ suc i
  length-snoc pre s i e = omega (arith, length-append pre (s ∷ []))

  remove_all-closed :
      (m : Msg) (ss pre : List (Stream Msg)) (i : ℕ)
      → length pre ≡ i
      → remove_all (reverse (closed_from i ss)) (pre ++ after_send m ss) ≡ pre ++ kept m ss
  unfolding remove_all
  remove_all-closed m [] pre i e = refl
  remove_all-closed m (s ∷ ss) pre i e = elim (Bool-cases s.closed) [
    | inl gone_away ↦ simp gone_away (
        ap (λ is. remove_all is (pre ++ s ∷ after_send m ss))
          (reverse-append (i ∷ []) (closed_from (suc i) ss))
        ∙ remove_all-append (reverse (closed_from (suc i) ss)) (i ∷ []) (pre ++ s ∷ after_send m ss)
        ∙ ap (λ l. remove i (remove_all (reverse (closed_from (suc i) ss)) l))
            (sym (append_assoc pre (s ∷ []) (after_send m ss)))
        ∙ ap (remove i) (remove_all-closed m ss (pre ++ s ∷ []) (suc i) (length-snoc pre s i e))
        ∙ ap (remove i) (append_assoc pre (s ∷ []) (kept m ss))
        ∙ ap (λ j. remove j (pre ++ s ∷ kept m ss)) (sym e)
        ∙ remove-append pre (kept m ss) s)
    | inr still ↦ simp still (
        ap (remove_all (reverse (closed_from (suc i) ss)))
          (sym (append_assoc pre (deliver m s ∷ []) (after_send m ss)))
        ∙ remove_all-closed m ss (pre ++ deliver m s ∷ []) (suc i)
            (length-snoc pre (deliver m s) i e)
        ∙ append_assoc pre (deliver m s ∷ []) (kept m ss))
  ]

  no_closed :
      (m : Msg) (is : List ℕ) (l : List (Stream Msg))
      → (if is_empty is then l else remove_all (reverse is) l) ≡ remove_all (reverse is) l
  unfolding remove_all
  no_closed m [] l = refl
  no_closed m (i ∷ is) l = refl

  -- After a dispatch the streams are, in their order, exactly those whose receiver is still
  -- there; each has the message behind what was queued, or is unchanged where it was full.
  pub dispatch_lem :
      (m : Msg) (ss : List (Stream Msg)) → dispatch m ss ≡ map (deliver m) (filter is_open ss)
  unfolding dispatch
  dispatch_lem m [] = refl
  dispatch_lem m (s ∷ ss) =
      ap
        (λ (r : List (Stream Msg) × List ℕ).
          if is_empty r.1 then r.0 else remove_all (reverse r.1) r.0)
        (send_from_lem m (s ∷ ss) 0)
      ∙ no_closed m (closed_from 0 (s ∷ ss)) (after_send m (s ∷ ss))
      ∙ remove_all-closed m (s ∷ ss) [] 0 refl

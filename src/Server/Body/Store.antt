-- ===== src/Server/Body/Store.antt =====
-- server.c: the loop of `read_request_body` that writes to the file.
use cse130_asgn.Base.{
  ℕ, zero, suc, ◌+◌, ◌-◌, ◌^◌, ◌≤◌, ◌<◌, Bool, true, false, ◌++◌, append-nil, append_assoc,
  Option-cases, Outcome, done, length, take, drop, ◌≡◌, inl, inr, refl, sym, ap, ◌∙◌, arith,
  ℕ_discrete, length-take, length-drop, ==_ne, ==_same,
}
use cse130_asgn.Memory.{Memory, between}
use cse130_asgn.Memory.Between.{between-split, between_same, length-between}
use cse130_asgn.Helpers.{sub_size}
use cse130_asgn.Os.{Os, Output, Progress}
use cse130_asgn.Server.{State, internal_error, fail}
use cse130_asgn.Server.Body.{flush_body, set_body_len}

module _ (os : Os) (out : Output os) (fd : ℕ) (scratch : Memory) (e : ℕ) where
  -- All is in the file, and the body that is still to come is shorter by it; or a write has failed,
  -- and the front of it is in the file.
  pub data StoreEnds (s : ℕ) (st : State) (w : os.World) (r : Outcome (Bool × State × os.World))
      : Type 0 where
    stored :
        (w' : os.World)
        → r ≡ done (true, set_body_len st (st.req.body_len - (e - s)), w')
        → out.sent fd w' ≡ out.sent fd w ++ between scratch s e
        → StoreEnds s st w r
    failed :
        (left place : ℕ) (w' : os.World)
        → r ≡ done (false, fail (set_body_len st left) internal_error, w')
        → (s ≤ place) × (place ≤ e)
        → out.sent fd w' ++ between scratch place e ≡ out.sent fd w ++ between scratch s e
        → StoreEnds s st w r

  rejoin :
      (s k : ℕ) (w w1 : os.World)
      → s + k ≤ e
      → out.sent fd w1 ≡ out.sent fd w ++ take k (between scratch s e)
      → out.sent fd w1 ++ between scratch (s + k) e ≡ out.sent fd w ++ between scratch s e
  rejoin s k w w1 fits grew =
      ap (λ xs. xs ++ between scratch (s + k) e) grew
      ∙ append_assoc (out.sent fd w) (take k (between scratch s e)) (between scratch (s + k) e)
      ∙ ap (λ ys. out.sent fd w ++ ys) (sym (between-split scratch s k e fits))

  -- `k` bytes more.
  pass_on :
      (s k : ℕ) (st : State) (w w1 : os.World) {r : Outcome (Bool × State × os.World)}
      → s + k ≤ e
      → out.sent fd w1 ≡ out.sent fd w ++ take k (between scratch s e)
      → StoreEnds (s + k) (set_body_len st (st.req.body_len - k)) w1 r
      → StoreEnds s st w r
  pass_on s k st w w1 fits grew (stored w' run bytes) =
      stored w' (run ∙ ap (λ n. done (true, set_body_len st n, w')) (omega arith))
        (bytes ∙ rejoin s k w w1 fits grew)
  pass_on s k st w w1 fits grew (failed left place w' run place_in bytes) =
      failed left place w' run (omega arith) (bytes ∙ rejoin s k w w1 fits grew)

  -- Where no `write` takes none of the bytes, a round for each byte and one more are enough: the loop
  -- ends, with all of the bytes in the file, in order, and `body_len` shorter by them, or with a front
  -- of them in the file and the failure set.
  pub flush_body-StoreEnds :
      (progress : Progress os) (fuel s : ℕ) (st : State) (w : os.World)
      → e ≤ length scratch
      → s ≤ e
      → e < fuel + s
      → e - s ≤ st.req.body_len
      → st.req.body_len < 2 ^ 64
      → StoreEnds s st w (flush_body os fuel fd scratch s e st w)
  unfolding flush_body
  flush_body-StoreEnds progress zero s st w inside le enough body small = absurd (omega arith)
  flush_body-StoreEnds progress (suc fuel) s st w inside le enough body small =
      elim (ℕ_discrete s e) [
        | yes stop ↦
            let none_left : st.req.body_len - (e - s) ≡ st.req.body_len = omega arith in
            stored w (rw (==_same s e stop, none_left) refl) (
              sym (append-nil (out.sent fd w))
              ∙ ap (λ ys. out.sent fd w ++ ys)
                  (sym (ap (λ x. between scratch x e) stop ∙ between_same scratch e)))
        | no more ↦ elim (Option-cases (os.write fd (between scratch s e) w).0) [
          | inl refused ↦
              failed st.req.body_len s (os.write fd (between scratch s e) w).1
                (rw (==_ne s e more, refused) refl) (omega arith)
                (ap (λ xs. xs ++ between scratch s e)
                  (out.write_none fd (between scratch s e) w refused))
          | inr (zero, took) ↦ absurd (
              progress.some_taken fd (between scratch s e) w
                (omega (arith, length-take (e - s) (drop s scratch), length-drop s scratch)) took)
          | inr (suc k, took) ↦
              let (few, grew) = out.write_some fd (between scratch s e) w (suc k) took in
              let fits : s + suc k ≤ e = omega (arith, length-between scratch s e) in
              let exact : sub_size st.req.body_len (suc k) ≡ st.req.body_len - suc k =
                omega arith in
              rw (==_ne s e more, took, exact)
                (pass_on s (suc k) st w (os.write fd (between scratch s e) w).1 fits grew (
                  flush_body-StoreEnds progress fuel (s + suc k)
                    (set_body_len st (st.req.body_len - suc k))
                    (os.write fd (between scratch s e) w).1 inside fits (omega arith) (omega arith)
                    (omega arith)))
        ]
      ]

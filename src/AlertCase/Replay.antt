-- ===== src/AlertCase/Replay.antt =====
-- The loop of VerifyCase over a log that grows by one event, and the file that event is written to.
use watchlist_platform.Base.{
  ℕ, ◌+◌, ◌≡◌, refl, sym, subst, ◌∙◌, Bool, true, ◌&&◌, List, [], ◌∷◌, ◌++◌, All, length, ◌==◌,
  arith,
}
use watchlist_platform.Base.Result.{ok, ◌>>=◌, require, require-eq-ok, ok-injective, bind_ok}
use watchlist_platform.Base.Text.{Text, eq_text}
use watchlist_platform.AlertCase.Types.{
  CaseEvent, CaseProjection, chain_mismatch, checksum_mismatch, Codec,
}
use watchlist_platform.AlertCase.Transition.{next_uint}
use watchlist_platform.AlertCase.Store.{write_file}
use watchlist_platform.AlertCase.Verify.{unhashed_event, replay_step, verify_loop}

pub write_file_last {ℓ} :
    {A : Type ℓ} (precedes : A → A → Bool) (file : A) (xs : List A)
    → All (λ x. precedes x file ≡ true) xs
    → write_file precedes file xs ≡ xs ++ file ∷ []
unfolding write_file
write_file_last precedes file [] h = refl
write_file_last precedes file (x ∷ xs) h = ground (arith, write_file_last precedes file xs h.1)

unfoldable pub last_digest : Text → List CaseEvent → Text
last_digest previous [] = previous
last_digest previous (e ∷ es) = last_digest e.event_sha256 es

pub last_digest-append :
    (previous : Text) (es : List CaseEvent) (e : CaseEvent)
    → last_digest previous (es ++ e ∷ []) ≡ e.event_sha256
unfolding last_digest
last_digest-append previous [] e = refl
last_digest-append previous (x ∷ es) e = last_digest-append x.event_sha256 es e

module _ (c : Codec) (id : Text) where
  abbrev chained : ℕ → Text → CaseEvent → Bool
  chained i previous e =
      e.sequence == next_uint i
      && (e.revision == next_uint i && eq_text e.previous_event_sha256 previous)

  abbrev hashed : CaseEvent → Bool
  hashed e = eq_text (c.sha256_hex (c.canonical_event (unhashed_event e))) e.event_sha256

  -- What the loop checks of one event.
  pub record IsNext (i : ℕ) (previous : Text) (r : CaseProjection) (e : CaseEvent)
      (q : CaseProjection) : Type 0 where
    pub links : chained i previous e ≡ true
    pub digest : hashed e ≡ true
    pub step : replay_step c id r e ≡ ok q

  verify_loop-cons :
      (i : ℕ) (previous : Text) (r : CaseProjection) (e : CaseEvent) (es : List CaseEvent)
      {q : CaseProjection}
      → IsNext i previous r e q
      → verify_loop c id i previous r (e ∷ es) ≡ verify_loop c id (i + 1) e.event_sha256 q es
  unfolding verify_loop
  verify_loop-cons i previous r e es n = rw (n.links, n.digest, n.step) refl

  verify_loop_inv :
      (i : ℕ) (previous : Text) (r : CaseProjection) (e : CaseEvent) (es : List CaseEvent)
      {p : CaseProjection}
      → verify_loop c id i previous r (e ∷ es) ≡ ok p
      → (q : CaseProjection) × IsNext i previous r e q
        × (verify_loop c id (i + 1) e.event_sha256 q es ≡ ok p)
  unfolding verify_loop
  verify_loop_inv i previous r e es {p} h =
      let onward = λ (next : CaseProjection). verify_loop c id (i + 1) e.event_sha256 next es in
      let replayed = replay_step c id r e >>= onward in
      let checked = require (hashed e) checksum_mismatch >>= λ _. replayed in
      let (_, l, h₁) = bind_ok (require (chained i previous e) chain_mismatch) (λ _. checked) h in
      let (_, d, h₂) = bind_ok (require (hashed e) checksum_mismatch) (λ _. replayed) h₁ in
      let (q, step, h₃) = bind_ok (replay_step c id r e) onward h₂ in
      (
        q,
        record {
          links = require-eq-ok (chained i previous e) chain_mismatch l;
          digest = require-eq-ok (hashed e) checksum_mismatch d;
          step = step;
        },
        h₃,
      )

  verify_loop-single :
      (i : ℕ) (previous : Text) (r : CaseProjection) (e : CaseEvent) (p : CaseProjection)
      {q : CaseProjection}
      → verify_loop c id i previous r [] ≡ ok p
      → IsNext i previous p e q
      → verify_loop c id i previous r (e ∷ []) ≡ ok q
  unfolding verify_loop
  verify_loop-single i previous r e p {q} h n =
      let n' : IsNext i previous r e q =
        subst (λ z. IsNext i previous z e q) (sym (ok-injective h)) n in
      rw (n'.links, n'.digest, n'.step) refl

  -- A log that replays, and one more event that is next, replay to the state after that event.
  pub verify_loop-append :
      (i : ℕ) (previous : Text) (r : CaseProjection) (es : List CaseEvent) (e : CaseEvent)
      (p : CaseProjection) {q : CaseProjection}
      → verify_loop c id i previous r es ≡ ok p
      → IsNext (i + length es) (last_digest previous es) p e q
      → verify_loop c id i previous r (es ++ e ∷ []) ≡ ok q
  unfolding last_digest
  verify_loop-append i previous r [] e p {q} h n =
      verify_loop-single i previous r e p h (subst (λ k. IsNext k previous p e q) (omega arith) n)
  verify_loop-append i previous r (x ∷ es) e p {q} h n =
      let (m, here, later) = verify_loop_inv i previous r x es h in
      verify_loop-cons i previous r x (es ++ e ∷ []) here
      ∙ verify_loop-append (i + 1) x.event_sha256 m es e p later
          (subst (λ k. IsNext k (last_digest x.event_sha256 es) p e q) (omega arith) n)

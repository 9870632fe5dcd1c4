-- ===== src/Scoring/Response.antt =====
-- What a response of Score holds: one result for each candidate, ranked, whatever the order of the
-- request.
use mathlib.Core.List.{Perm, Permᴰ}
use mathlib.Core.List.Permᴰ
use watchlist_platform.Base.{◌≡◌, refl, sym, ap, subst, ◌∙◌, ◌↔◌, some, List, [], map}
use watchlist_platform.Base.Result.{ok, bind_ok, ok-injective}
use watchlist_platform.Base.Text.{Text}
use watchlist_platform.Base.Sort.{sort-perm, sort-IsSorted, sort_permᴰ, IsSorted}
use watchlist_platform.Base.Sets.{Distinct}
use watchlist_platform.Base.Unicode.{Unicode}
use watchlist_platform.Scoring.Types.{
  Request, CandidateEnvelope, CandidateResult, Response, marshal_failed,
}
use watchlist_platform.Scoring.Policy.{Codec, Engine, or_error, or_error-eq-ok}
use watchlist_platform.Scoring.Engine.{validate_request, score_loop, less_result, respond, score}
use watchlist_platform.Scoring.Order.{less_result-IsOrder}
use watchlist_platform.Scoring.Loop.{
  trimmed_id, IsFresh, result, score_loop-ok, score_loop-total, results-Pairwise,
  Distinct-of_IsFresh, IsFresh-of_Distinct, IsUnseen-nil,
}

module _ (u : Unicode) (c : Codec) (e : Engine) (r : Request) where
  abbrev pub results : List CandidateEnvelope → List CandidateResult
  results = map (result u e.loaded.policy r.subject r.lineage)

  score_inv :
      {x : Response}
      → score u c e r ≡ ok x
      → (raw : Text) × (c.marshal_request r ≡ some raw)
        × (x ≡ respond u c e r raw (results r.candidates))
        × IsFresh [] r.candidates
  unfolding score
  score_inv {x} h =
      let (_, _, h₁) = bind_ok (validate_request r e.loaded.policy) _ h in
      let (raw, m, h₂) = bind_ok (or_error (c.marshal_request r) marshal_failed) _ h₁ in
      let (rs, loop, h₃) =
        bind_ok (score_loop u e.loaded.policy r.subject r.lineage [] r.candidates) _ h₂ in
      let (same, fresh) =
        score_loop-ok u e.loaded.policy r.subject r.lineage [] r.candidates loop in
      (
        raw,
        or_error-eq-ok (c.marshal_request r) marshal_failed m,
        sym (ok-injective h₃) ∙ ap (respond u c e r raw) same,
        fresh,
      )

  -- Score returns the results of the candidates, each once, ranked: no result stands behind one that
  -- less_result puts after it. The ids of the candidates, trimmed, are then pairwise different.
  pub score-ranked :
      {x : Response}
      → score u c e r ≡ ok x
      → Perm x.candidates (results r.candidates)
        × IsSorted less_result x.candidates
        × Distinct (map trimmed_id r.candidates)
  unfolding respond
  score-ranked h =
      let (raw, _, q, fresh) = score_inv h in
      let listed = ap (λ (y : Response). y.candidates) q in
      (
        subst (λ l. Perm l (results r.candidates)) (sym listed)
            (sort-perm less_result (results r.candidates)),
        subst (IsSorted less_result) (sym listed)
            (sort-IsSorted less_result less_result-IsOrder (results r.candidates)),
        (Distinct-of_IsFresh [] r.candidates fresh).0,
      )

  -- A request that validateRequest accepts and json.Marshal encodes is scored exactly if no two of
  -- its trimmed candidate ids are equal.
  pub score-total :
      {v : Unit {0}} {raw : Text}
      → validate_request r e.loaded.policy ≡ ok v
      → c.marshal_request r ≡ some raw
      → ((x : Response) × (score u c e r ≡ ok x)) ↔ Distinct (map trimmed_id r.candidates)
  unfolding score
  score-total {raw = raw} h m = (
    λ s. (score-ranked s.1).2,
    λ d.
        let fresh = IsFresh-of_Distinct [] r.candidates d (IsUnseen-nil _) in
        let done = score_loop-total u e.loaded.policy r.subject r.lineage [] r.candidates fresh in
        (respond u c e r raw (results r.candidates), rw (h, m, done) refl),
  )

-- The order of the candidates in the request does not matter: of two accepted requests that differ by
-- a permutation of the candidates, the responses list the same results in the same order.
pub score-permᴰ :
    (u : Unicode) (c : Codec) (e : Engine) (r : Request) (es : List CandidateEnvelope)
    {x y : Response}
    → Permᴰ r.candidates es
    → score u c e r ≡ ok x
    → score u c e (record r { candidates = es }) ≡ ok y
    → x.candidates ≡ y.candidates
unfolding respond
score-permᴰ u c e r es p h k =
    let (_, _, q, fresh) = score_inv u c e r h in
    let (_, _, q', _) = score_inv u c e (record r { candidates = es }) k in
    ap (λ (y : Response). y.candidates) q
    ∙ sort_permᴰ less_result less_result-IsOrder (Permᴰ.map _ p)
        (results-Pairwise u e.loaded.policy r.subject r.lineage [] r.candidates fresh)
    ∙ sym (ap (λ (y : Response). y.candidates) q')

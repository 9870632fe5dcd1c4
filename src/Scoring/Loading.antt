-- ===== src/Scoring/Loading.antt =====
-- A policy that ParsePolicy loads is one that NewEngine takes.
use watchlist_platform.Base.{◌≡◌, refl, not, length}
use watchlist_platform.Base.Result.{ok, require, bind_ok, ok-injective}
use watchlist_platform.Base.Text.{Text, utf8, eq_text_refl}
use watchlist_platform.Scoring.Types.{
  Policy, LoadedPolicy, decode_failed, trailing_value, marshal_failed,
}
use watchlist_platform.Scoring.Policy.{Codec, or_error, validate_policy, parse_policy, new_engine}

-- Where every digest has the 64 characters of a hexadecimal SHA-256, NewEngine accepts whatever
-- ParsePolicy returns, and the engine holds exactly that policy.
pub parse_policy-new_engine :
    (c : Codec) (raw : Text) {l : LoadedPolicy}
    → ((t : Text) → length (utf8 (c.sha256_hex t)) ≡ 64)
    → parse_policy c raw ≡ ok l
    → new_engine c l ≡ ok (record { loaded = l })
unfolding parse_policy new_engine
parse_policy-new_engine c raw {l} hex h =
    let (d, _, h₁) = bind_ok (or_error (c.decode_policy raw) decode_failed) _ h in
    let (_, _, h₂) = bind_ok (require (not d.1) trailing_value) _ h₁ in
    let (v, valid, h₃) = bind_ok (validate_policy d.0) _ h₂ in
    let (json, m, h₄) = bind_ok (or_error (c.marshal_policy d.0) marshal_failed) _ h₃ in
    accept d.0 json v valid m (ok-injective h₄)
  where
    accept :
        (p : Policy) (json : Text) (v : Unit {0})
        → validate_policy p ≡ ok v
        → or_error (c.marshal_policy p) marshal_failed ≡ ok json
        → ◌≡◌ {A = LoadedPolicy} (record { policy = p; sha256 = c.sha256_hex json }) l
        → new_engine c l ≡ ok (record { loaded = l })
    accept p json v valid m e =
        rw (← e) (rw (valid, m, hex json, eq_text_refl (c.sha256_hex json)) refl)

-- ===== src/AlertCase/Alerts.antt =====
-- CreateAlert of internal/alertcase/store.go. What BuildAlert returns, an alert or an error, is an
-- argument: the statements hold for each.
use watchlist_platform.Base.{
  ◌≡◌, refl, subst, ap, ◌⊎◌, inl, inr, Bool, true, false, Option, none, some, if◌then◌else◌,
  Bool-cases, arith,
}
use watchlist_platform.Base.Result.{Result, ok, err, ◌>>=◌, ◌>>◌, require, ok-injective, bind_ok}
use watchlist_platform.Base.Text.{Text, text, eq_text}
use watchlist_platform.AlertCase.Types.{
  CreateAlertRequest, AlertRecord, IdempotencyReceipt, CaseError, not_found, invalid_id,
  alert_collision, Codec,
}
use watchlist_platform.AlertCase.Store.{
  Store, valid_alert_id, or_missing, check_receipt, save_receipt, append_audit,
}
use watchlist_platform.AlertCase.Requests.{Keeps}

pub record Alerted : Type 0 where
  pub alert : AlertRecord
  pub replayed : Bool

unfoldable pub put_alert : AlertRecord → Store → Store
unfolding eq_text
put_alert a s = record s { alerts = λ id. if eq_text id a.alert_id then some a else s.alerts id }

module _ (c : Codec) where
  abbrev pub alert_scope : Text
  alert_scope = text "create-alert"

  abbrev pub alert_hash : CreateAlertRequest → Text
  alert_hash req = c.sha256_hex (c.canonical_alert_request req)

  -- saveReceipt at the end of CreateAlert
  unfoldable pub alert_receipt : CreateAlertRequest → AlertRecord → Store → Store
  unfolding save_receipt
  alert_receipt req a s =
      save_receipt c alert_scope req.idempotency_key (alert_hash req)
        (c.sha256_hex (c.canonical_alert a)) (text "alert") a.alert_id a.created_at s

  -- the writes of a new alert: record, audit, receipt
  unfoldable pub record_alert : CreateAlertRequest → AlertRecord → Store → Store
  unfolding put_alert append_audit alert_receipt
  record_alert req a s = alert_receipt req a (
      append_audit c a.created_at (text "alert_created") (text "system") (text "alert") a.alert_id
        (c.canonical_alert a) (put_alert a s))

  -- the part of CreateAlert that looks for a record with the identifier
  unfoldable pub find_or_record :
      Store
      → CreateAlertRequest
      → AlertRecord
      → Option AlertRecord
      → Result CaseError (Alerted × Store)
  unfolding eq_text alert_receipt record_alert
  find_or_record s req a none = ok (record { alert = a; replayed = false }, record_alert req a s)
  find_or_record s req a (some existing) =
      if eq_text existing.record_sha256 a.record_sha256
      then ok (record { alert = existing; replayed = true }, alert_receipt req existing s)
      else err alert_collision

  -- the part of CreateAlert that finds no receipt
  unfoldable pub new_alert :
      Store → CreateAlertRequest → Result CaseError AlertRecord → Result CaseError (Alerted × Store)
  unfolding find_or_record
  new_alert s req built = do
    a ← built
    require (valid_alert_id a.alert_id) invalid_id
    find_or_record s req a (s.alerts a.alert_id)

  -- the part of CreateAlert that finds a receipt
  unfoldable pub replay_alert : Store → Text → Result CaseError (Alerted × Store)
  replay_alert s id = do
    require (valid_alert_id id) invalid_id
    a ← or_missing (s.alerts id) not_found
    ok (record { alert = a; replayed = true }, s)

  -- CreateAlert
  unfoldable pub create_alert :
      Store → CreateAlertRequest → Result CaseError AlertRecord → Result CaseError (Alerted × Store)
  unfolding check_receipt new_alert replay_alert
  create_alert s req built = do
    receipt ← check_receipt c s alert_scope req.idempotency_key (alert_hash req)
    elim receipt [ some found ↦ replay_alert s found.object_id | none ↦ new_alert s req built ]

  -- a request that records an alert
  pub record IsAlerted (s : Store) (req : CreateAlertRequest) (t : Store) : Type 0 where
    pub alert : AlertRecord
    pub records : record_alert req alert s ≡ t

  find_or_record-records :
      (s : Store) (req : CreateAlertRequest) (a : AlertRecord) (o : Option AlertRecord)
      {r : Alerted} {t : Store}
      → find_or_record s req a o ≡ ok (r, t)
      → Keeps s t ⊎ IsAlerted s req t
  unfolding find_or_record
  find_or_record-records s req a none h =
      inr (record { alert = a; records = ap (λ (x : Alerted × Store). x.1) (ok-injective h) })
  find_or_record-records s req a (some existing) {r} {t} h =
      elim (Bool-cases (eq_text existing.record_sha256 a.record_sha256)) [
        | inl same ↦ inl (kept (ground (arith, h, same)))
        | inr other ↦ cc (h, other)
      ]
    where
      kept : alert_receipt req existing s ≡ t → Keeps s t
      kept e = subst (Keeps s) e (refl, refl, refl)

  pub create_alert-records :
      (s : Store) (req : CreateAlertRequest) (built : Result CaseError AlertRecord) {r : Alerted}
      {t : Store}
      → create_alert s req built ≡ ok (r, t)
      → Keeps s t ⊎ IsAlerted s req t
  unfolding create_alert new_alert replay_alert
  create_alert-records s req built {r} {t} h =
      let (receipt, _, h₁) =
        bind_ok (check_receipt c s alert_scope req.idempotency_key (alert_hash req)) _ h in
      by_receipt receipt h₁
    where
      by_receipt :
          (o : Option IdempotencyReceipt)
          → elim o [ some found ↦ replay_alert s found.object_id | none ↦ new_alert s req built ]
            ≡ ok (r, t)
          → Keeps s t ⊎ IsAlerted s req t
      by_receipt none k =
          let (a, _, h₁) = bind_ok built _ k in
          let (_, _, h₂) = bind_ok (require (valid_alert_id a.alert_id) invalid_id) _ h₁ in
          find_or_record-records s req a (s.alerts a.alert_id) h₂
      by_receipt (some found) k =
          let (_, _, h₁) = bind_ok (require (valid_alert_id found.object_id) invalid_id) _ k in
          let (_, _, h₂) = bind_ok (or_missing (s.alerts found.object_id) not_found) _ h₁ in
          inl (
            subst (Keeps s) (ap (λ (x : Alerted × Store). x.1) (ok-injective h₂))
              (refl, refl, refl))

  record_alert-cases :
      (s : Store) (req : CreateAlertRequest) (a : AlertRecord)
      → (record_alert req a s).cases ≡ s.cases
  unfolding record_alert alert_receipt save_receipt append_audit put_alert
  record_alert-cases s req a = refl

  -- CreateAlert leaves the cases as they are.
  pub create_alert-cases :
      (s : Store) (req : CreateAlertRequest) (built : Result CaseError AlertRecord) {r : Alerted}
      {t : Store}
      → create_alert s req built ≡ ok (r, t)
      → t.cases ≡ s.cases
  create_alert-cases s req built {r} {t} h = by_case (create_alert-records s req built h)
    where
      by_case : Keeps s t ⊎ IsAlerted s req t → t.cases ≡ s.cases
      by_case (inl same) = same.0
      by_case (inr a) =
          subst (λ (x : Store). x.cases ≡ s.cases) a.records (record_alert-cases s req a.alert)

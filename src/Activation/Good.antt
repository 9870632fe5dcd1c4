-- ===== src/Activation/Good.antt =====
-- The states that the manager leaves in the state directory, and what Recover makes of them.
use watchlist_platform.Base.{
  ℕ, zero, suc, ◌≡◌, refl, sym, ap, ◌∙◌, ◌⊎◌, inl, inr, true, false, not, [], ◌∷◌, take, is_empty,
  Option, none, some, if◌then◌else◌, Bool-cases,
}
use watchlist_platform.Base.Result.{Result, err, ok}
use watchlist_platform.Base.Text.{Text, eq_text_refl}
use watchlist_platform.Activation.Types.{
  Activation, Snapshot, World, WorldLaws, Files, Effect, write_active, remove_active,
  remove_pending, apply, run, pending_schema,
}
use watchlist_platform.Activation.Validate.{Failure, validate_activation}
use watchlist_platform.Activation.Manager.{
  Recovery, clean, completed, rolled_back, pending_for, load_document, switched, restore,
  recover_pending, recover_document, recover, decoded, recover_decoded,
}

module _ (w : World) (laws : WorldLaws w) where
  unfoldable pub IsValid : Activation → Type 0
  IsValid a = (s : Snapshot) × (validate_activation w a ≡ ok s)

  -- Each activation document is an encoded activation under its identifier that is valid.
  unfoldable pub IsStored : Files → Type 0
  IsStored f =
      (id raw : Text)
      → f.activations id ≡ some raw
      → (a : Activation) × ((raw ≡ w.marshal a) × ((a.activation_id ≡ id) × IsValid a))

  -- There is no active document, nor an identifier; or it decodes to an activation with the identifier,
  -- under which the document `stored` is stored. PromoteExisting writes an active document with other
  -- paths than the stored one has.
  unfoldable pub IsNamed : Files → Text → Option Text → Option Text → Type 0
  IsNamed f id active stored =
      ((id ≡ []) × ((active ≡ none) × (stored ≡ none)))
      ⊎ ((is_empty id ≡ false)
          × (((a : Activation) × ((load_document w active ≡ ok a) × (a.activation_id ≡ id)))
              × ((raw : Text) × ((stored ≡ some raw) × (f.activations id ≡ some raw)))))

  -- Each activation document is valid, the active document has a stored one, and nothing is pending.
  unfoldable pub IsSettled : Files → Type 0
  IsSettled f =
      IsStored f
      × (((id : Text) × ((stored : Option Text) × IsNamed f id f.active stored))
          × (f.pending ≡ none))

  abbrev pub stored_document : Files → Result Failure Activation → Option Text
  stored_document f (err e) = none
  stored_document f (ok a) = f.activations a.activation_id

  -- the stored document of the activation that the active document names
  unfoldable pub named_document : Files → Option Text
  named_document f = stored_document f (load_document w f.active)

  -- A switch from `old` to `new` is under way, was made, or was taken back, to the stored document.
  unfoldable pub IsSwitching :
      Text → Option Text → Option Text → Text → Option Text → Files → Type 0
  IsSwitching previous old stored target new f =
      IsStored f
      × (IsNamed f previous old stored
          × (((document : Option Text) × IsNamed f target new document)
              × (((f.active ≡ old) ⊎ ((f.active ≡ stored) ⊎ (f.active ≡ new)))
                  × ((f.pending ≡ none)
                      ⊎ (f.pending ≡ some (w.marshal_pending (pending_for target previous)))))))

  pub load_document-ok :
      (raw : Text) (a : Activation) → raw ≡ w.marshal a → load_document w (some raw) ≡ ok a
  unfolding load_document
  load_document-ok raw a e = ap (decoded w) (ap w.decode e ∙ laws.decode_marshal a)

  module _ (previous : Text) (old stored : Option Text) (target : Text) (new : Option Text) where
    -- a change of the active document or of the pending one
    IsSwitching-active :
        (f : Files) (raw : Text)
        → stored ≡ some raw
        → IsSwitching previous old stored target new f
        → IsSwitching previous old stored target new (apply (write_active raw) f)
    unfolding apply IsSwitching IsStored IsNamed
    IsSwitching-active f raw e (st, (po, (tn, (a, p)))) = (st, (po, (tn, (inr (inl (sym e)), p))))

    IsSwitching-remove_active :
        (f : Files)
        → old ≡ none
        → IsSwitching previous old stored target new f
        → IsSwitching previous old stored target new (apply remove_active f)
    unfolding apply IsSwitching IsStored IsNamed
    IsSwitching-remove_active f e (st, (po, (tn, (a, p)))) = (st, (po, (tn, (inl (sym e), p))))

    IsSwitching-remove_pending :
        (f : Files)
        → IsSwitching previous old stored target new f
        → IsSwitching previous old stored target new (apply remove_pending f)
    unfolding apply IsSwitching IsStored IsNamed
    IsSwitching-remove_pending f (st, (po, (tn, (a, p)))) = (st, (po, (tn, (a, inl refl))))

    -- Recover returns, each of its changes keeps the state, and after the last nothing is pending.
    unfoldable pub Recovers : Files → Type 0
    Recovers f =
        (r : Recovery) × ((recover w f ≡ ok r)
          × (((k : ℕ) → IsSwitching previous old stored target new (run (take k r.effects) f))
              × ((run r.effects f).pending ≡ none)))

    one_change :
        (e : Effect) (f : Files) (k : ℕ)
        → IsSwitching previous old stored target new f
        → IsSwitching previous old stored target new (apply e f)
        → IsSwitching previous old stored target new (run (take k (e ∷ [])) f)
    unfolding run
    one_change e f zero h i = h
    one_change e f (suc zero) h i = i
    one_change e f (suc (suc k)) h i = i

    two_changes :
        (d e : Effect) (f : Files) (k : ℕ)
        → IsSwitching previous old stored target new f
        → IsSwitching previous old stored target new (apply d f)
        → IsSwitching previous old stored target new (apply e (apply d f))
        → IsSwitching previous old stored target new (run (take k (d ∷ e ∷ [])) f)
    unfolding run
    two_changes d e f zero h i j = h
    two_changes d e f (suc k) h i j = one_change e (apply d f) k i j

    restore-ok :
        (f : Files) (raw : Text)
        → IsStored f
        → f.activations previous ≡ some raw
        → restore w f previous
          ≡ ok (record { effects = write_active raw ∷ remove_pending ∷ []; status = rolled_back })
    unfolding restore IsStored IsValid
    restore-ok f raw st h =
        let (a, (e, (i, (s, v)))) = st previous raw h in
        rw (h, load_document-ok raw a e, v)
          (ap
            (λ t.
              ok (record { effects = write_active t ∷ remove_pending ∷ []; status = rolled_back }))
            (sym e))

    recover-clean :
        (f : Files) → f.pending ≡ none → recover w f ≡ ok (record { effects = []; status = clean })
    unfolding recover recover_document
    recover-clean f h = ap (recover_document w f) h

    pending_document :
        (f : Files)
        → w.decode_pending (w.marshal_pending (pending_for target previous))
          ≡ some (pending_for target previous)
        → recover_document w f (some (w.marshal_pending (pending_for target previous)))
          ≡ recover_pending w f (pending_for target previous)
    unfolding recover_document
    pending_document f h = ap (recover_decoded w f) h

    recover-pending :
        (f : Files)
        → f.pending ≡ some (w.marshal_pending (pending_for target previous))
        → recover w f ≡ recover_pending w f (pending_for target previous)
    unfolding recover recover_document
    recover-pending f h =
        ap (recover_document w f) h
        ∙ pending_document f (laws.decode_marshal_pending (pending_for target previous))

    -- what recover_pending does where the switch was not completed
    recover_back :
        (f : Files)
        → IsSwitching previous old stored target new f
        → (r : Recovery) × (((if not (is_empty previous)
                then restore w f previous
                else ok (record {
                  effects = remove_active ∷ remove_pending ∷ [];
                  status = rolled_back;
                }))
              ≡ ok r)
            × (((k : ℕ) → IsSwitching previous old stored target new (run (take k r.effects) f))
                × ((run r.effects f).pending ≡ none)))
    unfolding IsSwitching IsNamed run apply
    recover_back f (st, (inl (e, (n, b)), rest)) =
        let h : IsSwitching previous old stored target new f = (st, (inl (e, (n, b)), rest)) in
        let i = IsSwitching-remove_active f n h in
        (
          record { effects = remove_active ∷ remove_pending ∷ []; status = rolled_back },
          (
            rw e refl,
            (
              λ k.
                  two_changes remove_active remove_pending f k h i
                    (IsSwitching-remove_pending (apply remove_active f) i),
              refl,
            ),
          ),
        )
    recover_back f (st, (inr (e, (d, (raw, (o, held)))), rest)) =
        let h : IsSwitching previous old stored target new f =
          (st, (inr (e, (d, (raw, (o, held)))), rest)) in
        let i = IsSwitching-active f raw o h in
        (
          record { effects = write_active raw ∷ remove_pending ∷ []; status = rolled_back },
          (
            rw e (restore-ok f raw st held),
            (
              λ k.
                  two_changes (write_active raw) remove_pending f k h i
                    (IsSwitching-remove_pending (apply (write_active raw) f) i),
              refl,
            ),
          ),
        )

    switched_yes :
        (f : Files)
        → switched w f.active target ≡ true
        → recover_pending w f (pending_for target previous)
          ≡ ok (record { effects = remove_pending ∷ []; status = completed })
    unfolding recover_pending
    switched_yes f s = rw (eq_text_refl pending_schema, s) refl

    switched_no :
        (f : Files)
        → switched w f.active target ≡ false
        → recover_pending w f (pending_for target previous) ≡ (
            if not (is_empty previous)
            then restore w f previous
            else ok
                (record { effects = remove_active ∷ remove_pending ∷ []; status = rolled_back }))
    unfolding recover_pending
    switched_no f s = rw (eq_text_refl pending_schema, s) refl

    pending_removed : (f : Files) → (run (remove_pending ∷ []) f).pending ≡ none
    unfolding run apply
    pending_removed f = refl

    nothing :
        (f : Files) (k : ℕ)
        → IsSwitching previous old stored target new f
        → IsSwitching previous old stored target new (run (take k []) f)
    unfolding run
    nothing f zero h = h
    nothing f (suc k) h = h

    -- From any state of a switch Recover returns and leaves a state with nothing pending, also where it
    -- is cut short and run again.
    pub IsSwitching-Recovers :
        (f : Files) → IsSwitching previous old stored target new f → Recovers f
    unfolding IsSwitching Recovers run
    IsSwitching-Recovers f (st, (po, (tn, (a, inl p)))) = (
      record { effects = []; status = clean },
      (recover-clean f p, (λ k. nothing f k (st, (po, (tn, (a, inl p)))), p)),
    )
    IsSwitching-Recovers f (st, (po, (tn, (a, inr p)))) =
        let h : IsSwitching previous old stored target new f = (st, (po, (tn, (a, inr p)))) in
        elim (Bool-cases (switched w f.active target)) [
          | inl s ↦ (
            record { effects = remove_pending ∷ []; status = completed },
            (
              recover-pending f p ∙ switched_yes f s,
              (
                λ k. one_change remove_pending f k h (IsSwitching-remove_pending f h),
                pending_removed f,
              ),
            ),
          )
          | inr s ↦
              let (r, (e, rest)) = recover_back f h in
              (r, (recover-pending f p ∙ switched_no f s ∙ e, rest))
        ]

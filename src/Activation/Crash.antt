-- ===== src/Activation/Crash.antt =====
-- A crash of Activate and of Recover, at any change of a file.
use watchlist_platform.Base.{
  ℕ, zero, suc, ◌≡◌, refl, sym, ap, subst, ◌∙◌, ◌⊎◌, inl, inr, List, [], ◌∷◌, take, length, Option,
  none, some,
}
use watchlist_platform.Base.Result.{ok, ok-injective}
use watchlist_platform.Base.Text.{Text}
use watchlist_platform.Activation.Types.{Activation, World, WorldLaws, Files, Effect, apply, run}
use watchlist_platform.Activation.Manager.{Recovery, load_document, switch, recover}
use watchlist_platform.Activation.Good.{
  IsStored, IsNamed, IsSettled, IsSwitching, Recovers, IsSwitching-Recovers, load_document-ok,
}

-- What calls of Recover leave that are cut short after some of their changes, one call after another.
pub data Interrupted (w : World) : Files → Files → Type 0 where
  stop : {f : Files} → Interrupted w f f
  again :
      {f g : Files} (r : Recovery) (k : ℕ)
      → recover w f ≡ ok r
      → Interrupted w (run (take k r.effects) f) g
      → Interrupted w f g

-- Recover returns and leaves a settled state, with one of three active documents.
unfoldable pub Settles :
    (w : World) → WorldLaws w → Option Text → Option Text → Option Text → Files → Type 0
Settles w laws old stored new g =
    (r : Recovery) × ((recover w g ≡ ok r)
      × (IsSettled w laws (run r.effects g)
          × (((run r.effects g).active ≡ old)
              ⊎ (((run r.effects g).active ≡ stored) ⊎ ((run r.effects g).active ≡ new)))))

take_all : (effects : List Effect) → take (length effects) effects ≡ effects
take_all [] = refl
take_all (e ∷ effects) = ap (λ l. e ∷ l) (take_all effects)

module _ (w : World) (laws : WorldLaws w) where
  -- The stored document of an activation may stand for the active one.
  pub stored-IsNamed :
      (f : Files) (id : Text) (active stored : Option Text)
      → IsStored w laws f
      → IsNamed w laws f id active stored
      → IsNamed w laws f id stored stored
  unfolding IsStored IsNamed
  stored-IsNamed f id active stored st (inl (e, (n, s))) = inl (e, (s, s))
  stored-IsNamed f id active stored st (inr (e, (_, (raw, (s, held))))) =
      let (a, (m, (i, _))) = st id raw held in
      let loads = ap (load_document w) s ∙ load_document-ok w laws raw a m in
      inr (e, ((a, (loads, i)), (raw, (s, held))))

  module _ (previous : Text) (old stored : Option Text) (target : Text) (new : Option Text) where
    pub IsSwitching-Interrupted :
        {f g : Files}
        → IsSwitching w laws previous old stored target new f
        → Interrupted w f g
        → IsSwitching w laws previous old stored target new g
    unfolding Recovers
    IsSwitching-Interrupted h stop = h
    IsSwitching-Interrupted {f} h (again r k e i) =
        let (s, (q, (kept, _))) = IsSwitching-Recovers w laws previous old stored target new f h in
        let same : s ≡ r = ok-injective (sym q ∙ e) in
        IsSwitching-Interrupted
          (subst (λ z. IsSwitching w laws previous old stored target new (run (take k z.effects) f))
            same (kept k))
          i

    pub IsSwitching-IsSettled :
        (f : Files)
        → IsSwitching w laws previous old stored target new f
        → f.pending ≡ none
        → IsSettled w laws f
    unfolding IsSwitching IsSettled
    IsSwitching-IsSettled f (st, (po, (tn, (inl a, _)))) p =
        (st, ((previous, (stored, subst (λ o. IsNamed w laws f previous o stored) (sym a) po)), p))
    IsSwitching-IsSettled f (st, (po, (tn, (inr (inl a), _)))) p =
        let restored = stored-IsNamed f previous old stored st po in
        (
          st,
          (
            (previous, (stored, subst (λ o. IsNamed w laws f previous o stored) (sym a) restored)),
            p,
          ),
        )
    IsSwitching-IsSettled f (st, (po, ((document, tn), (inr (inr a), _)))) p =
        (st, ((target, (document, subst (λ o. IsNamed w laws f target o document) (sym a) tn)), p))

    active_either :
        (f : Files)
        → IsSwitching w laws previous old stored target new f
        → (f.active ≡ old) ⊎ ((f.active ≡ stored) ⊎ (f.active ≡ new))
    unfolding IsSwitching
    active_either f (st, (po, (tn, (a, _)))) = a

    pub IsSwitching-Settles :
        (f : Files)
        → IsSwitching w laws previous old stored target new f
        → Settles w laws old stored new f
    unfolding Recovers Settles
    IsSwitching-Settles f h =
        let (r, (q, (kept, p))) = IsSwitching-Recovers w laws previous old stored target new f h in
        let last : IsSwitching w laws previous old stored target new (run r.effects f) =
          subst (λ es. IsSwitching w laws previous old stored target new (run es f))
            (take_all r.effects) (kept (length r.effects)) in
        (
          r,
          (
            q,
            (IsSwitching-IsSettled (run r.effects f) last p, active_either (run r.effects f) last),
          ),
        )

  -- each prefix of the changes of a switch
  pub switch-IsSwitching :
      (f : Files) (previous : Text) (stored : Option Text) (target : Text) (document : Option Text)
      (a : Activation) (k : ℕ)
      → IsStored w laws f
      → IsNamed w laws f previous f.active stored
      → IsNamed w laws f target (some (w.marshal a)) document
      → f.pending ≡ none
      → IsSwitching w laws previous f.active stored target
          (some (w.marshal a))
          (run (take k (switch w target previous a)) f)
  unfolding run apply IsSwitching IsStored IsNamed
  switch-IsSwitching f previous stored target document a zero st po tn p =
      (st, (po, ((document, tn), (inl refl, inl p))))
  switch-IsSwitching f previous stored target document a (suc zero) st po tn p =
      (st, (po, ((document, tn), (inl refl, inr refl))))
  switch-IsSwitching f previous stored target document a (suc (suc zero)) st po tn p =
      (st, (po, ((document, tn), (inr (inr refl), inr refl))))
  switch-IsSwitching f previous stored target document a (suc (suc (suc zero))) st po tn p =
      (st, (po, ((document, tn), (inr (inr refl), inl refl))))
  switch-IsSwitching f previous stored target document a (suc (suc (suc (suc k)))) st po tn p =
      (st, (po, ((document, tn), (inr (inr refl), inl refl))))

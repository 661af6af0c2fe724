-- ===== src/Load/Verified.antt =====
-- What a report of go-backend/cmd/loadtest/main.go that is verified says.
use prediction_market.Base.{
  ℕ, zero, suc, ◌*◌, ◌<◌, ◌≡◌, String, Bool, true, false, List, [], ◌∷◌, length, nat_eq, ◌==◌,
  eq_string, if◌then◌else◌, arith, refl, inl, inr, Bool-cases, ◌∙◌, ap, sym, subst, ◌-◌,
}
use prediction_market.Int.{ℤ}
use prediction_market.Result.{Result, ok, err}
use prediction_market.Load.Jobs.{feed}
use prediction_market.Load.Client.{
  Identity, Outside, Steps, ◌>>=◌, ◌>>◌, then_go, give, register_user, create_market, first_token,
  register_users, create_markets, fund_users, set_up,
}
use prediction_market.Load.Check.{verify_markets}
use prediction_market.Load.Walk.{AllRest}
use prediction_market.Load.Accounted.{IsAccounted, verify_markets-IsAccounted, verify_markets-Rests}
use prediction_market.Load.Run.{
  report_of, Report, with_check, check_accounts, measure, run_markets, submit_all, funding_of,
}

module _ {W A B : Type 0} where
  -- The two steps of a run that ended well
  then_go-ok :
      (x : Result A × W) (k : A → Steps W B) {b : B} {w' : W}
      → then_go x k ≡ (ok b, w')
      → (a : A) × (v : W) × (x ≡ (ok a, v)) × (k a v ≡ (ok b, w'))
  then_go-ok (ok a, v) k e = (a, v, refl, e)
  then_go-ok (err x, v) k e = absurd (cc e)

module _ {W A : Type 0} where
  length-collect :
      (n : Steps W A) (rest : Steps W (List A)) (k : ℕ)
      → ((v v' : W) (xs : List A) → rest v ≡ (ok xs, v') → length xs ≡ k)
      → (w w' : W) (bs : List A) → (n >>= λ a. rest >>= λ xs. give (a ∷ xs)) w ≡ (ok bs, w')
      → length bs ≡ suc k
  length-collect n rest k h w w' bs e =
      let (a, v, _, e₁) = then_go-ok (n w) (λ a. rest >>= λ xs. give (a ∷ xs)) e in
      let (xs, v', e₂, e₃) = then_go-ok (rest v) (λ xs. give (a ∷ xs)) e₁ in
      let same : a ∷ xs ≡ bs = cc in ap length (sym same) ∙ ap suc (h v v' xs e₂)

with_check-verified :
    {W : Type 0} (x : Result (Unit {0}) × W) (r : Report) (w' : W) (r' : Report)
    → r.verified ≡ false
    → ◌≡◌ {A = Result Report × W} (ok (with_check r x.0), x.1) (ok r', w')
    → r'.verified ≡ true
    → (r'.summary.failures ≡ r.summary.failures) × (x ≡ (ok tt, w'))
with_check-verified (ok a, v) r w' r' unset e done = (ground arith, ground arith)
with_check-verified (err x, v) r w' r' unset e done = absurd (ground arith)

module _ {W : Type 0} (o : Outside W) (base stamp : String) where
  length-register_users :
      (left i : ℕ) (w w' : W) (us : List Identity)
      → register_users o base stamp left i w ≡ (ok us, w')
      → length us ≡ left
  unfolding register_users
  length-register_users zero i w w' us e = let same : [] ≡ us = cc in ap length (sym same)
  length-register_users (suc left) i w w' us e =
      length-collect (register_user o base stamp i) (register_users o base stamp left (suc i)) left
        (length-register_users left (suc i)) w w' us e

  length-create_markets :
      (token : String) (left i : ℕ) (w w' : W) (ids : List String)
      → create_markets o base stamp token left i w ≡ (ok ids, w')
      → length ids ≡ left
  unfolding create_markets
  length-create_markets token zero i w w' ids e = let same : [] ≡ ids = cc in ap length (sym same)
  length-create_markets token (suc left) i w w' ids e =
      length-collect (create_market o base stamp token i)
        (create_markets o base stamp token left (suc i)) left
        (length-create_markets token left (suc i)) w w' ids e

  set_up-lengths :
      (separate : Bool) (markets : ℕ) (funding : ℤ) (w w' : W) (users : List Identity)
      (ids : List String)
      → set_up o base stamp separate markets funding w ≡ (ok (users, ids), w')
      → (length users ≡ (if separate then 2 * markets else 2)) × (length ids ≡ markets)
  unfolding set_up
  set_up-lengths separate markets funding w w' users ids e =
      let n : ℕ = if separate then 2 * markets else 2 in
      let (us, v, e₁, e₂) =
        then_go-ok (register_users o base stamp n 0 w)
          (λ us. create_markets o base stamp (first_token us) markets 0 >>= λ is.
            fund_users o base funding us >> give (us, is))
          e in
      let (is, v', e₃, e₄) =
        then_go-ok (create_markets o base stamp (first_token us) markets 0 v)
          (λ is. fund_users o base funding us >> give (us, is)) e₂ in
      let (_, v'', _, e₅) = then_go-ok (fund_users o base funding us v') (λ _. give (us, is)) e₄ in
      let same : us ≡ users = cc e₅ in
      let same' : is ≡ ids = cc e₅ in
      (
        ap length (sym same) ∙ length-register_users n 0 w v us e₁,
        ap length (sym same') ∙ length-create_markets (first_token us) markets 0 v v' is e₃,
      )

  -- A check that is told to have gone well did go well, after a run with no failures.
  check_accounts-verified :
      (separate : Bool) (markets : List String) (users : List Identity) (funding : ℤ) (count : ℕ)
      (r : Report) (w w' : W) (r' : Report)
      → r.verified ≡ false
      → check_accounts o base stamp separate markets users funding count r w ≡ (ok r', w')
      → r'.verified ≡ true
      → (r'.summary.failures ≡ 0)
        × (verify_markets o base separate markets users funding count w ≡ (ok tt, w'))
  unfolding check_accounts
  check_accounts-verified separate markets users funding count r w w' r' unset e done =
      elim (Bool-cases (nat_eq r.summary.failures 0)) [
        | inl clean ↦
            let (same, well) =
              with_check-verified (verify_markets o base separate markets users funding count w) r
                w' r' unset (rw clean at e) done in
            (same ∙ ground arith, well)
        | inr fails ↦ let e' : r ≡ r' = cc (rw fails at e) in absurd (cc (unset, done, e'))
      ]

-- If reading an account never changes anything and there is a market, a run whose report is verified
-- had no failures, and its setup had registered two users, or two for each market, and created the
-- markets, such that the accounts of these very users in these markets that the server shows at the
-- end are those that the jobs make, in whatever order the workers took them.
pub run_markets-verified :
    {W : Type 0} (o : Outside W) (base stamp scope : String)
    → ((w : W) → AllRest o base w)
    → (markets orders duration rounds : ℕ) (stop : ℕ → Bool) (taken : List ℕ → List ℕ) (w w' : W)
      (r : Report)
    → 0 < markets
    → run_markets o base stamp scope markets orders duration rounds stop taken w ≡ (ok r, w')
    → r.verified ≡ true
    → (r.summary.failures ≡ 0)
      × (users : List Identity) × (ids : List String) × (ready : W) × (set_up o base stamp
            (scope == "independent")
            markets
            (funding_of orders duration)
            w
          ≡ (ok (users, ids), ready))
      × (length users ≡ (if scope == "independent" then 2 * markets else 2))
      × (length ids ≡ markets)
      × IsAccounted o base
          (scope == "independent")
          ids
          users
          (funding_of orders duration)
          (feed rounds stop 0)
          w'
unfolding run_markets measure report_of
run_markets-verified {W} o base stamp scope rests markets orders duration rounds stop taken w w' r
      some_market e done =
    let separate = scope == "independent" in
    let funding = funding_of orders duration in
    let jobs = feed rounds stop 0 in
    let ((users, ids), v, e₁, e₂) =
      then_go-ok (set_up o base stamp separate markets funding w)
        (λ (users, ids).
          measure o base stamp separate ids users funding 10000000000 (length jobs) (taken jobs))
        e in
    let (enough, same) = set_up-lengths o base stamp separate markets funding w v users ids e₁ in
    let (samples, u, _, e₃) =
      then_go-ok (submit_all o base stamp separate users ids (o.now v) (taken jobs) v)
        (λ samples w'.
          check_accounts o base stamp separate ids users funding (length jobs)
            (report_of (length jobs) samples (o.now w' - o.now v) 10000000000) w')
        e₂ in
    let (clean, well) =
      check_accounts-verified o base stamp separate ids users funding (length jobs)
        (report_of (length jobs) samples (o.now u - o.now v) 10000000000) u w' r refl e₃ done in
    let still : u ≡ w' =
      sym (verify_markets-Rests o base u (rests u) separate ids users funding (length jobs))
      ∙ ap (λ (x : Result (Unit {0}) × W). x.1) well in
    (
      clean,
      users,
      ids,
      v,
      e₁,
      enough,
      same,
      (verify_markets-IsAccounted o base w' (rests w') separate ids users funding
            (omega (arith, same))
            (enough ∙ ap (λ (n : ℕ). if separate then 2 * n else 2) (sym same)) rounds stop).0
          (subst
            (λ z. verify_markets o base separate ids users funding (length jobs) z ≡ (ok tt, w'))
            still well),
    )

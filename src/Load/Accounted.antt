-- ===== src/Load/Accounted.antt =====
-- What `verifyMarkets` of go-backend/cmd/loadtest/main.go accepts: the accounts that the jobs make.
use Prim.Native.Nat.{◌/◌}
use prediction_market.Base.{
  get_elem?, ℕ, zero, suc, ◌+◌, ◌*◌, ◌≤◌, ◌<◌, String, Bool, true, false, List, [], ◌∷◌, some,
  length, if◌then◌else◌, ◌≡◌, ◌↔◌, refl, ◌∙◌, ap, sym, arith, subst, inl, inr, Bool-cases, nat_eq,
}
use prediction_market.Int.{ℤ, pos, eq_int}
use prediction_market.Result.{ok}
use prediction_market.Load.Jobs.{feed, market_pairs, expected_pairs, market_indices, numbers_from}
use prediction_market.Load.Shares.{
  count_if, is_of, is_in, IsUser, IsHolder, shares_on, expected_pairs-count, shares_on-count,
}
use prediction_market.Load.Client.{Identity, Shares, Outside}
use prediction_market.Load.Check.{
  expected_shares, expected_cents, read_position, read_balance, verify_users, verify_markets,
}
use prediction_market.Load.Checks.{Rests}
use prediction_market.Load.Walk.{
  AllRest, IsHeld, AllHeld, IsKept, AllKept, verify_users_iff, verify_users-Rests,
}

-- The count of jobs that each account and each of its positions should show
abbrev pub IsAccounted :
    {W : Type 0} → Outside W → String → Bool → List String → List Identity → ℤ → List ℕ → W → Type 0
IsAccounted o base separate markets users funding jobs w =
    (i : ℕ) (u : Identity)
    → get_elem? users i ≡ some u
    → ((read_balance o base u w).0
        ≡ ok (expected_cents funding (count_if (is_of separate (length markets) i) jobs)))
      × ((m : ℕ) (market : String)
          → get_elem? markets m ≡ some market
          → IsHolder separate i m
          → (read_position o base u market w).0
            ≡ ok (record {
              yes = pos (count_if (is_in separate (length markets) i m false) jobs);
              no = pos (count_if (is_in separate (length markets) i m true) jobs);
            }))

get_elem?-lt {ℓ} :
    {A : Type ℓ} (xs : List A) (i : ℕ) {a : A} → get_elem? xs i ≡ some a → i < length xs
get_elem?-lt [] i e = absurd (cc e)
get_elem?-lt (x ∷ xs) zero e = omega arith
get_elem?-lt (x ∷ xs) (suc i) e = omega (arith, get_elem?-lt xs i e)

lt-get_elem? {ℓ} :
    {A : Type ℓ} (xs : List A) (i : ℕ) → i < length xs → (a : A) × (get_elem? xs i ≡ some a)
lt-get_elem? [] i h = elim h [ ]
lt-get_elem? (x ∷ xs) zero h = (x, refl)
lt-get_elem? (x ∷ xs) (suc i) h = lt-get_elem? xs i (omega arith)

expected_shares-sides :
    (i n : ℕ) (m : ℕ) (k : ℕ)
    → expected_shares i (market_pairs n k m)
      ≡ record { yes = pos (shares_on false n k i m); no = pos (shares_on true n k i m) }
unfolding expected_shares shares_on
expected_shares-sides i n m k = ground arith

module _ {W : Type 0} (o : Outside W) (base : String) (w : W) (rest : AllRest o base w) where
  module _ (separate : Bool) (markets : List String) (funding : ℤ) (pairs : ℕ) where
    abbrev Kept : ℕ → Identity → Type 0
    Kept = IsKept o base w rest separate markets funding pairs

    AllKept-at :
        (n : ℕ) (us : List Identity)
        → AllKept o base w rest separate markets funding pairs n us
        → (i : ℕ) (u : Identity) → get_elem? us i ≡ some u
        → Kept (n + i) u
    AllKept-at n [] k i u e = absurd (cc e)
    AllKept-at n (x ∷ us) k zero u e =
        subst (λ v. Kept (n + 0) v) (cc e) (subst (λ j. Kept j x) (omega arith) k.0)
    AllKept-at n (x ∷ us) k (suc i) u e =
        subst (λ j. Kept j u) (omega arith) (AllKept-at (suc n) us k.1 i u e)

    AllKept-of :
        (n : ℕ) (us : List Identity)
        → ((i : ℕ) (u : Identity) → get_elem? us i ≡ some u → Kept (n + i) u)
        → AllKept o base w rest separate markets funding pairs n us
    AllKept-of n [] k = tt
    AllKept-of n (x ∷ us) k = (
      subst (λ j. Kept j x) (omega arith) (k 0 x refl),
      AllKept-of (suc n) us (λ i u e. subst (λ j. Kept j u) (omega arith) (k (suc i) u e)),
    )

  module _ (markets : List String) (pairs i : ℕ) (u : Identity) where
    AllHeld-at :
        (n j : ℕ)
        → AllHeld o base w rest markets pairs i u (numbers_from n j)
        → (m : ℕ) → j ≤ m
        → m < j + n
        → IsHeld o base w rest markets pairs i u m
    AllHeld-at zero j h m l r = absurd (omega arith)
    AllHeld-at (suc n) j h m l r = elim (Bool-cases (nat_eq j m)) [
      | inl e ↦ subst (IsHeld o base w rest markets pairs i u) (ground arith) h.0
      | inr e ↦ AllHeld-at n (suc j) h.1 m (ground arith) (omega arith)
    ]

    AllHeld-of :
        (n j : ℕ)
        → ((m : ℕ) → j ≤ m → m < j + n → IsHeld o base w rest markets pairs i u m)
        → AllHeld o base w rest markets pairs i u (numbers_from n j)
    AllHeld-of zero j h = tt
    AllHeld-of (suc n) j h = (
      h j (omega arith) (omega arith),
      AllHeld-of n (suc j) (λ m l r. h m (omega arith) (omega arith)),
    )

-- The shares that a user should have in a market, by counting its jobs there
abbrev counted_shares : Bool → ℕ → ℕ → ℕ → List ℕ → Shares
counted_shares separate n i m jobs = record {
  yes = pos (count_if (is_in separate n i m false) jobs);
  no = pos (count_if (is_in separate n i m true) jobs);
}

expected_shares-count :
    (separate : Bool) (n i m rounds : ℕ) (stop : ℕ → Bool)
    → m < n
    → IsHolder separate i m
    → expected_shares i (market_pairs n (length (feed rounds stop 0) / 2) m)
      ≡ counted_shares separate n i m (feed rounds stop 0)
expected_shares-count separate n i m rounds stop h e =
    rw
      (
        expected_shares-sides i n m (length (feed rounds stop 0) / 2),
        shares_on-count false separate n i m h e rounds stop,
        shares_on-count true separate n i m h e rounds stop,
      )
      refl

module _ {W : Type 0} (o : Outside W) (base : String) (w : W) (rest : AllRest o base w) where
  module _ (separate : Bool) (markets : List String) (funding : ℤ) (rounds : ℕ)
      (stop : ℕ → Bool) where
    abbrev jobs : List ℕ
    jobs = feed rounds stop 0

    abbrev ShowsShares : ℕ → Identity → Type 0
    ShowsShares i u =
        (m : ℕ) (market : String)
        → get_elem? markets m ≡ some market
        → IsHolder separate i m
        → (read_position o base u market w).0
          ≡ ok (counted_shares separate (length markets) i m jobs)

    shows_shares :
        (i m : ℕ) (u : Identity) (market : String)
        → IsHeld o base w rest markets (length jobs / 2) i u m
        → get_elem? markets m ≡ some market
        → IsHolder separate i m
        → (read_position o base u market w).0
          ≡ ok (counted_shares separate (length markets) i m jobs)
    shows_shares i m u market (found, e, answer) e' holder =
        let same : found ≡ market = cc in
        subst
          (λ x.
            (read_position o base u x w).0 ≡ ok (counted_shares separate (length markets) i m jobs))
          same
          (answer
            ∙ ap ok (
                expected_shares-count separate (length markets) i m rounds stop
                  (get_elem?-lt markets m e') holder))

    held :
        (i m : ℕ) (u : Identity)
        → ShowsShares i u
        → m < length markets
        → IsHolder separate i m
        → IsHeld o base w rest markets (length jobs / 2) i u m
    held i m u shows h holder =
        let (market, e) = lt-get_elem? markets m h in
        (
          market,
          e,
          shows m market e holder
              ∙ ap ok
                  (sym (expected_shares-count separate (length markets) i m rounds stop h holder)),
        )

  module _ (markets : List String) (funding : ℤ) (rounds : ℕ) (stop : ℕ → Bool) where
    AllHeld-ShowsShares :
        (separate : Bool) (i : ℕ) (u : Identity)
        → AllHeld o base w rest markets
            (length (feed rounds stop 0) / 2)
            i
            u
            (market_indices separate (length markets) i)
        → ShowsShares separate markets funding rounds stop i u
    unfolding market_indices
    AllHeld-ShowsShares true i u (h, _) m market e holder =
        shows_shares true markets funding rounds stop i m u market
          (subst (IsHeld o base w rest markets (length (feed rounds stop 0) / 2) i u) holder h) e
          holder
    AllHeld-ShowsShares false i u h m market e holder =
        shows_shares false markets funding rounds stop i m u market
          (AllHeld-at o base w rest markets (length (feed rounds stop 0) / 2) i u (length markets) 0
            h m (omega arith) (omega (arith, get_elem?-lt markets m e)))
          e holder

    ShowsShares-AllHeld :
        (separate : Bool) (i : ℕ) (u : Identity)
        → IsUser separate (length markets) i
        → ShowsShares separate markets funding rounds stop i u
        → AllHeld o base w rest markets
            (length (feed rounds stop 0) / 2)
            i
            u
            (market_indices separate (length markets) i)
    unfolding market_indices
    ShowsShares-AllHeld true i u known h =
        (held true markets funding rounds stop i (i / 2) u h (omega arith) refl, tt)
    ShowsShares-AllHeld false i u known h =
        AllHeld-of o base w rest markets (length (feed rounds stop 0) / 2) i u (length markets) 0
          (λ m l r. held false markets funding rounds stop i m u h (omega arith) known)

pub verify_markets-Rests :
    {W : Type 0} (o : Outside W) (base : String) (w : W)
    → AllRest o base w
    → (separate : Bool) (markets : List String) (users : List Identity) (funding : ℤ) (count : ℕ)
    → Rests (verify_markets o base separate markets users funding count) w
unfolding verify_markets
verify_markets-Rests o base w rest separate markets users funding count =
    verify_users-Rests o base w rest separate markets funding (count / 2) 0 users

-- If reading an account changes nothing and there are accounts for every market, verifyMarkets accepts
-- after the jobs that were fed, whenever it stopped to feed them, exactly if each account's balance is
-- the funding less 50 cents for each of its jobs, and in each of its markets it shows a YES share for
-- each of its jobs that buys YES there, and a NO share for each that buys NO.
pub verify_markets-IsAccounted :
    {W : Type 0} (o : Outside W) (base : String) (w : W)
    → AllRest o base w
    → (separate : Bool) (markets : List String) (users : List Identity) (funding : ℤ)
    → 0 < length markets
    → length users ≡ (if separate then 2 * length markets else 2)
    → (rounds : ℕ) (stop : ℕ → Bool)
    → (verify_markets o base separate markets users funding (length (feed rounds stop 0)) w
        ≡ (ok tt, w))
      ↔ IsAccounted o base separate markets users funding (feed rounds stop 0) w
unfolding verify_markets
verify_markets-IsAccounted o base w rest separate markets users funding some_market enough rounds
      stop =
    (
      λ h i u e.
          let (cents, shares) =
            subst (λ j. Kept o base w rest separate markets funding pairs j u) (from_zero i)
              (AllKept-at o base w rest separate markets funding pairs 0 users (walk.0 h) i u e) in
          (
            cents ∙ ap (λ (n : ℕ). ok (expected_cents funding n)) (pairs_of i u e),
            AllHeld-ShowsShares o base w rest markets funding rounds stop separate i u shares,
          ),
      λ h. walk.1 (
          AllKept-of o base w rest separate markets funding pairs 0 users (λ i u e.
            subst (λ j. Kept o base w rest separate markets funding pairs j u) (sym (from_zero i))
              (
                (h i u e).0 ∙ ap (λ (n : ℕ). ok (expected_cents funding n)) (sym (pairs_of i u e)),
                ShowsShares-AllHeld o base w rest markets funding rounds stop separate i u
                    (known i u e) (h i u e).1,
              ))),
    )
  where
    from_zero : (i : ℕ) → 0 + i ≡ i
    from_zero i = omega arith

    pairs : ℕ
    pairs = length (feed rounds stop 0) / 2

    walk :
        (verify_users o base separate markets funding pairs 0 users w ≡ (ok tt, w))
        ↔ AllKept o base w rest separate markets funding pairs 0 users
    walk = verify_users_iff o base w rest separate markets funding pairs 0 users

    known : (i : ℕ) (u : Identity) → get_elem? users i ≡ some u → IsUser separate (length markets) i
    known i u e = omega (arith, get_elem?-lt users i e)

    pairs_of :
        (i : ℕ) (u : Identity)
        → get_elem? users i ≡ some u
        → expected_pairs separate (length markets) pairs i
          ≡ count_if (is_of separate (length markets) i) (feed rounds stop 0)
    pairs_of i u e =
        expected_pairs-count separate (length markets) i some_market (known i u e) rounds stop

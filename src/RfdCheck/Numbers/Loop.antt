-- ===== src/RfdCheck/Numbers/Loop.antt =====
-- Lemmas on the loop of `check` over the RFD directories, `check_dirs`.
use mathlib.Core.Path.{subst}
use mathlib.Core.List.{Memᴰ, append-nil, append_assoc}
use multiplayer_fabric_manua.Common.{
  List, [], ◌∷◌, ◌++◌, none, ◌≡◌, ◌↔◌, refl, arith, inl, inr, ◌∙◌, sym, ap,
}
use multiplayer_fabric_manua.Common.Lists.{
  Distinct, append-eq-nil, mem-append_inv, mem-append_left, mem-append_right,
}
use multiplayer_fabric_manua.Common.Dict.{keys, lookup, store, not_here, lookup-none, keys-store}
use multiplayer_fabric_manua.Common.Text.{Text}
use multiplayer_fabric_manua.RfdCheck.FileTree.{Dir, ok}
use multiplayer_fabric_manua.RfdCheck.Numbers.{Seen, check_number, dir_number, check_dirs}
use multiplayer_fabric_manua.RfdCheck.Numbers.Rounds.{IsInOrder, check_number-clean}
use multiplayer_fabric_manua.RfdCheck.FileTree.Outcomes.{Outcome-cases, ok-pair}

-- Each directory is in order, with its number.
abbrev pub Numbered : Dir → List Text → List Text → Type 0
Numbered rfd [] [] = Unit
Numbered rfd (d ∷ ds) (n ∷ ns) = IsInOrder rfd d n × Numbered rfd ds ns
Numbered rfd _ _ = ⊥

-- What `seen` is after the loop.
pub record_all : Seen → List Text → List Text → Seen
record_all seen (d ∷ ds) (n ∷ ns) = record_all (store n d seen) ds ns
record_all seen [] ns = seen
record_all seen (d ∷ ds) [] = seen

-- The loop, round by round.
abbrev Clean : Dir → Seen → List Text → Seen → Type 0
Clean rfd seen [] seen' = seen' ≡ seen
Clean rfd seen (d ∷ ds) seen' =
    (num : Text) × IsInOrder rfd d num
    × (lookup num seen ≡ none)
    × Clean rfd (store num d seen) ds seen'

-- A loop with no problem has none in its first round and none in the others.
first_round :
    (rfd : Dir) (d : Text) (ds : List Text) (seen seen' : Seen)
    → check_dirs rfd seen (d ∷ ds) ≡ ok ([], seen')
    → (seen₁ : Seen) × (check_number rfd seen d (dir_number d) ≡ ok ([], seen₁))
      × (check_dirs rfd seen₁ ds ≡ ok ([], seen'))
unfolding check_dirs
first_round rfd d ds seen seen' h = elim (Outcome-cases (check_number rfd seen d (dir_number d))) [
  | inr (x, e) ↦ ground arith
  | inl ((here, seen₁), e) ↦ elim (Outcome-cases (check_dirs rfd seen₁ ds)) [
    | inr (x, e') ↦ ground arith
    | inl ((later, seen₂), e') ↦
        let q : ok (here ++ later, seen₂) ≡ ok ([], seen') = rw (e, e') at h in
        let (none_left, same) = ok-pair q in
        let (p, p') = (append-eq-nil here later).0 none_left in
        (seen₁, e ∙ rw p, e' ∙ rw (p', same))
  ]
]

check_dirs-found :
    (rfd : Dir) (ds : List Text) (seen seen' : Seen)
    → check_dirs rfd seen ds ≡ ok ([], seen')
    → Clean rfd seen ds seen'
unfolding check_dirs
check_dirs-found rfd [] seen seen' h = cc
check_dirs-found rfd (d ∷ ds) seen seen' h =
    let (seen₁, e, e') = first_round rfd d ds seen seen' h in
    let (num, o, f, q) = (check_number-clean rfd seen seen₁ d).0 e in
    let rest : check_dirs rfd (store num d seen) ds ≡ ok ([], seen') = rw q at e' in
    (num, o, f, check_dirs-found rfd ds (store num d seen) seen' rest)

check_dirs-finds :
    (rfd : Dir) (ds : List Text) (seen seen' : Seen)
    → Clean rfd seen ds seen'
    → check_dirs rfd seen ds ≡ ok ([], seen')
unfolding check_dirs
check_dirs-finds rfd [] seen seen' h = rw h
check_dirs-finds rfd (d ∷ ds) seen seen' (num, o, f, c) = rw (
  (check_number-clean rfd seen (store num d seen) d).1 (num, o, f, refl),
  check_dirs-finds rfd ds (store num d seen) seen' c,
)

-- None of the numbers is among the keys.
abbrev Apart : List Text → List Text → Type 0
Apart ks [] = Unit
Apart ks (n ∷ ns) = ¬ Memᴰ n ks × Apart ks ns

Apart-append : (k : Text) (ks ns : List Text) → ¬ Memᴰ k ns → Apart ks ns → Apart (ks ++ k ∷ []) ns
Apart-append k ks [] h a = tt
Apart-append k ks (n ∷ ns) h a = (
  λ m. elim (mem-append_inv ks m) [
    | inl l ↦ a.0 l
    | inr (Memᴰ.head e) ↦ h (Memᴰ.head (sym e))
    | inr (Memᴰ.tail r) ↦ elim r [ ]
  ],
  Apart-append k ks ns (λ x. h (Memᴰ.tail x)) a.1,
)

Apart-init : (k : Text) (ks ns : List Text) → Apart (ks ++ k ∷ []) ns → Apart ks ns × (¬ Memᴰ k ns)
Apart-init k ks [] a = (tt, λ x. elim x [ ])
Apart-init k ks (n ∷ ns) a =
    let (b, h) = Apart-init k ks ns a.1 in
    (
      (λ m. a.0 (mem-append_left (k ∷ []) m), b),
      not_here k n ns (λ e. a.0 (mem-append_right ks (Memᴰ.head (sym e)))) h,
    )

Clean-Numbered :
    (rfd : Dir) (ds : List Text) (seen seen' : Seen)
    → Clean rfd seen ds seen'
    → (nums : List Text) × Numbered rfd ds nums
      × Distinct nums
      × Apart (keys seen) nums
      × (seen' ≡ record_all seen ds nums)
unfolding record_all
Clean-Numbered rfd [] seen seen' c = ([], tt, tt, tt, c)
Clean-Numbered rfd (d ∷ ds) seen seen' (num, o, f, c) =
    let (nums, q, dist, apart, e) = Clean-Numbered rfd ds (store num d seen) seen' c in
    let (b, h) = Apart-init num (keys seen) nums (rw (keys-store num d seen f) at apart) in
    (num ∷ nums, (o, q), (h, dist), ((lookup-none num seen).0 f, b), e)

Numbered-Clean :
    (rfd : Dir) (ds nums : List Text) (seen : Seen)
    → Numbered rfd ds nums
    → Distinct nums
    → Apart (keys seen) nums
    → Clean rfd seen ds (record_all seen ds nums)
unfolding record_all
Numbered-Clean rfd [] [] seen q dist a = refl
Numbered-Clean rfd [] (n ∷ ns) seen q dist a = absurd q
Numbered-Clean rfd (d ∷ ds) [] seen q dist a = absurd q
Numbered-Clean rfd (d ∷ ds) (n ∷ ns) seen (o, q) (h, dist) (f, a) =
    let fresh = (lookup-none n seen).1 f in
    (
      n,
      o,
      fresh,
      Numbered-Clean rfd ds ns (store n d seen) q dist
          (rw (keys-store n d seen fresh) (Apart-append n (keys seen) ns h a)),
    )

keys-record_all :
    (rfd : Dir) (ds nums : List Text) (seen : Seen)
    → Numbered rfd ds nums
    → Distinct nums
    → Apart (keys seen) nums
    → keys (record_all seen ds nums) ≡ keys seen ++ nums
unfolding record_all
keys-record_all rfd [] [] seen q dist a = sym (append-nil (keys seen))
keys-record_all rfd [] (n ∷ ns) seen q dist a = absurd q
keys-record_all rfd (d ∷ ds) [] seen q dist a = absurd q
keys-record_all rfd (d ∷ ds) (n ∷ ns) seen (o, q) (h, dist) (f, a) =
    let k = keys-store n d seen ((lookup-none n seen).1 f) in
    keys-record_all rfd ds ns (store n d seen) q dist (rw k (Apart-append n (keys seen) ns h a))
    ∙ (ap (λ x. x ++ ns) k ∙ append_assoc (keys seen) (n ∷ []) ns)

Apart-nil : (ns : List Text) → Apart [] ns
Apart-nil [] = tt
Apart-nil (n ∷ ns) = (λ m. elim m [ ], Apart-nil ns)

pub check_dirs-found_numbers :
    (rfd : Dir) (ds : List Text) (seen : Seen)
    → check_dirs rfd [] ds ≡ ok ([], seen)
    → (nums : List Text) × Numbered rfd ds nums × Distinct nums × (keys seen ≡ nums)
check_dirs-found_numbers rfd ds seen h =
    let (nums, q, dist, a, e) = Clean-Numbered rfd ds [] seen (check_dirs-found rfd ds [] seen h) in
    (nums, q, dist, ap keys e ∙ keys-record_all rfd ds nums [] q dist a)

pub check_dirs-finds_none :
    (rfd : Dir) (ds nums : List Text)
    → Numbered rfd ds nums
    → Distinct nums
    → (seen : Seen) × (check_dirs rfd [] ds ≡ ok ([], seen)) × (keys seen ≡ nums)
check_dirs-finds_none rfd ds nums q dist =
    let a = Apart-nil nums in
    let seen = record_all [] ds nums in
    (
      seen,
      check_dirs-finds rfd ds [] seen (Numbered-Clean rfd ds nums [] q dist a),
      keys-record_all rfd ds nums [] q dist a,
    )

-- The loop from an empty `seen` reports nothing and leaves the numbers `nums` in `seen` exactly when
-- each directory is in order with its number of `nums` and no number stands twice.
pub check_dirs_iff :
    (rfd : Dir) (ds nums : List Text)
    → ((seen : Seen) × (check_dirs rfd [] ds ≡ ok ([], seen)) × (keys seen ≡ nums))
      ↔ (Numbered rfd ds nums × Distinct nums)
check_dirs_iff rfd ds nums = (there, λ (q, dist). check_dirs-finds_none rfd ds nums q dist)
  where
    there :
        (seen : Seen) × (check_dirs rfd [] ds ≡ ok ([], seen)) × (keys seen ≡ nums)
        → Numbered rfd ds nums × Distinct nums
    there (seen, e, k) =
        let (nums', q, dist, k') = check_dirs-found_numbers rfd ds seen e in
        subst (λ ns. Numbered rfd ds ns × Distinct ns) (sym k' ∙ k) (q, dist)

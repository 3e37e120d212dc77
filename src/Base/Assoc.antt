-- ===== src/Base/Assoc.antt =====
-- A map with numbers as keys, as a list of pairs with distinct keys.
use ai_systems_verification.Base.{
  ℕ, suc, ◌≡◌, ◌≢◌, ◌<◌, refl, sym, ap, ◌∙◌, subst, true, false, List, [], ◌∷◌, Option, none, some,
  arith, ◌==◌, if◌then◌else◌, Bool-cases, inl, inr, length, ==_refl, eq→==, ne→==_false, ==_iff,
  if_true, if_false,
}

not_same : (i k : ℕ) → (i == k) ≡ false → i ≢ k
not_same i k e h = ground (arith, eq→== i k h)

some_injective {ℓ} : {A : Type ℓ} {x y : A} → some x ≡ some y → x ≡ y
some_injective e = cc

none-some {ℓ} : {A : Type ℓ} {x : A} → none ≡ some x → ⊥
none-some e = cc

module _ {ℓ} {V : Type ℓ} where
  unfoldable pub find : ℕ → List (ℕ × V) → Option V
  find k [] = none
  find k ((i, v) ∷ m) = if i == k then some v else find k m

  unfoldable pub erase : ℕ → List (ℕ × V) → List (ℕ × V)
  erase k [] = []
  erase k ((i, v) ∷ m) = let rest = erase k m in if i == k then rest else (i, v) ∷ rest

  -- An entry of that key replaced, or added.
  abbrev pub put : ℕ → V → List (ℕ × V) → List (ℕ × V)
  put k v m = (k, v) ∷ erase k m

  -- The value of a key changed in place.
  unfoldable pub alter : ℕ → (V → V) → List (ℕ × V) → List (ℕ × V)
  alter k f [] = []
  alter k f ((i, v) ∷ m) =
      let rest = alter k f m in if i == k then (i, f v) ∷ rest else (i, v) ∷ rest

  abbrev pub Distinct : List (ℕ × V) → Type ℓ
  Distinct [] = Unit
  Distinct ((i, v) ∷ m) = (find i m ≡ none) × Distinct m

  -- What holds of every key with its value.
  abbrev pub Each {κ} : (ℕ → V → Type κ) → List (ℕ × V) → Type κ
  Each P [] = Unit
  Each P ((i, v) ∷ m) = P i v × Each P m

  find_here : (k i : ℕ) (v : V) (m : List (ℕ × V)) → (i == k) ≡ true → find k ((i, v) ∷ m) ≡ some v
  unfolding find
  find_here k i v m e = if_true e _ _

  find_there :
      (k i : ℕ) (v : V) (m : List (ℕ × V)) → (i == k) ≡ false → find k ((i, v) ∷ m) ≡ find k m
  unfolding find
  find_there k i v m e = if_false e _ _

  pub find-erase_same : (k : ℕ) (m : List (ℕ × V)) → find k (erase k m) ≡ none
  unfolding find erase
  find-erase_same k [] = refl
  find-erase_same k ((i, v) ∷ m) = elim (Bool-cases (i == k)) [
    | inl e ↦ rw e (find-erase_same k m)
    | inr e ↦ rw (e, e) (find-erase_same k m)
  ]

  pub find-erase_other : (j k : ℕ) (m : List (ℕ × V)) → j ≢ k → find j (erase k m) ≡ find j m
  unfolding find erase
  find-erase_other j k [] ne = refl
  find-erase_other j k ((i, v) ∷ m) ne = elim (Bool-cases (i == k)) [
    | inl e ↦
        let away : (i == j) ≡ false = ne→==_false _ _ (λ h. ne (sym h ∙ (==_iff i k).0 e)) in
        rw (e, away) (find-erase_other j k m ne)
    | inr e ↦ rw e (ap (λ (o : Option V). if i == j then some v else o) (find-erase_other j k m ne))
  ]

  pub Distinct-erase : (k : ℕ) (m : List (ℕ × V)) → Distinct m → Distinct (erase k m)
  unfolding erase
  Distinct-erase k [] d = tt
  Distinct-erase k ((i, v) ∷ m) (new, d) = elim (Bool-cases (i == k)) [
    | inl e ↦ rw e (Distinct-erase k m d)
    | inr e ↦
        let other : i ≢ k = not_same i k e in
        rw e (find-erase_other i k m other ∙ new, Distinct-erase k m d)
  ]

  pub erase_missing : (k : ℕ) (m : List (ℕ × V)) → find k m ≡ none → erase k m ≡ m
  unfolding find erase
  erase_missing k [] h = refl
  erase_missing k ((i, v) ∷ m) h = elim (Bool-cases (i == k)) [
    | inl e ↦ absurd (none-some (sym h ∙ find_here k i v m e))
    | inr e ↦ rw e (ap (◌∷◌ (i, v)) (erase_missing k m (sym (find_there k i v m e) ∙ h)))
  ]

  -- Erasing a key that is there takes one entry away.
  pub length-erase :
      (k : ℕ) (m : List (ℕ × V)) (v : V)
      → Distinct m
      → find k m ≡ some v
      → length m ≡ suc (length (erase k m))
  unfolding find erase
  length-erase k [] v d h = absurd (none-some h)
  length-erase k ((i, w) ∷ m) v (new, d) h = elim (Bool-cases (i == k)) [
    | inl e ↦ rw e (
        ap (λ (l : List (ℕ × V)). suc (length l))
          (sym (erase_missing k m (subst (λ (j : ℕ). find j m ≡ none) ((==_iff i k).0 e) new))))
    | inr e ↦ rw e (ap suc (length-erase k m v d (sym (find_there k i w m e) ∙ h)))
  ]

  pub Each-erase {κ} :
      (P : ℕ → V → Type κ) (k : ℕ) (m : List (ℕ × V)) → Each P m → Each P (erase k m)
  unfolding erase
  Each-erase P k [] a = tt
  Each-erase P k ((i, v) ∷ m) (here, a) = elim (Bool-cases (i == k)) [
    | inl e ↦ rw e (Each-erase P k m a)
    | inr e ↦ rw e (here, Each-erase P k m a)
  ]

  pub Each-find {κ} :
      (P : ℕ → V → Type κ) (k : ℕ) (m : List (ℕ × V)) (v : V) → Each P m → find k m ≡ some v → P k v
  unfolding find
  Each-find P k [] v a h = absurd (none-some h)
  Each-find P k ((i, w) ∷ m) v (here, a) h = elim (Bool-cases (i == k)) [
    | inl e ↦
        let same : w ≡ v = some_injective (sym (find_here k i w m e) ∙ h) in
        subst (λ (x : V). P k x) same (subst (λ (j : ℕ). P j w) ((==_iff i k).0 e) here)
    | inr e ↦ Each-find P k m v a (sym (find_there k i w m e) ∙ h)
  ]

  pub find-alter_same :
      (k : ℕ) (f : V → V) (m : List (ℕ × V)) (v : V)
      → find k m ≡ some v
      → find k (alter k f m) ≡ some (f v)
  unfolding find alter
  find-alter_same k f [] v h = absurd (none-some h)
  find-alter_same k f ((i, w) ∷ m) v h = elim (Bool-cases (i == k)) [
    | inl e ↦
        rw (e, e) (ap (λ (x : V). some (f x)) (some_injective (sym (find_here k i w m e) ∙ h)))
    | inr e ↦ rw (e, e) (find-alter_same k f m v (sym (find_there k i w m e) ∙ h))
  ]

  pub find-alter_other :
      (j k : ℕ) (f : V → V) (m : List (ℕ × V)) → j ≢ k → find j (alter k f m) ≡ find j m
  unfolding find alter
  find-alter_other j k f [] ne = refl
  find-alter_other j k f ((i, w) ∷ m) ne = elim (Bool-cases (i == k)) [
    | inl e ↦
        let away : (i == j) ≡ false = ne→==_false _ _ (λ h. ne (sym h ∙ (==_iff i k).0 e)) in
        rw (e, away) (find-alter_other j k f m ne)
    | inr e ↦
        rw e (ap (λ (o : Option V). if i == j then some w else o) (find-alter_other j k f m ne))
  ]

  pub length-alter : (k : ℕ) (f : V → V) (m : List (ℕ × V)) → length (alter k f m) ≡ length m
  unfolding alter
  length-alter k f [] = refl
  length-alter k f ((i, w) ∷ m) = elim (Bool-cases (i == k)) [
    | inl e ↦ rw e (ap suc (length-alter k f m))
    | inr e ↦ rw e (ap suc (length-alter k f m))
  ]

  find-alter_missing :
      (j k : ℕ) (f : V → V) (m : List (ℕ × V)) → find j m ≡ none → find j (alter k f m) ≡ none
  unfolding find alter
  find-alter_missing j k f [] h = refl
  find-alter_missing j k f ((i, w) ∷ m) h = elim (Bool-cases (i == j)) [
    | inl e ↦ absurd (none-some (sym h ∙ find_here j i w m e))
    | inr e ↦ elim (Bool-cases (i == k)) [
      | inl e' ↦ rw (e', e) (find-alter_missing j k f m (sym (find_there j i w m e) ∙ h))
      | inr e' ↦ rw (e', e) (find-alter_missing j k f m (sym (find_there j i w m e) ∙ h))
    ]
  ]

  pub Distinct-alter : (k : ℕ) (f : V → V) (m : List (ℕ × V)) → Distinct m → Distinct (alter k f m)
  unfolding alter
  Distinct-alter k f [] d = tt
  Distinct-alter k f ((i, w) ∷ m) (new, d) = elim (Bool-cases (i == k)) [
    | inl e ↦ rw e (find-alter_missing i k f m new, Distinct-alter k f m d)
    | inr e ↦ rw e (find-alter_missing i k f m new, Distinct-alter k f m d)
  ]

  pub Each-alter {κ} :
      (P : ℕ → V → Type κ) (k : ℕ) (f : V → V) (m : List (ℕ × V))
      → ((v : V) → P k v → P k (f v))
      → Each P m
      → Each P (alter k f m)
  unfolding alter
  Each-alter P k f [] keeps a = tt
  Each-alter P k f ((i, w) ∷ m) keeps (here, a) = elim (Bool-cases (i == k)) [
    | inl e ↦
        let same : i ≡ k = (==_iff i k).0 e in
        rw e (
          subst (λ (j : ℕ). P j (f w)) (sym same) (keeps w (subst (λ (j : ℕ). P j w) same here)),
          Each-alter P k f m keeps a,
        )
    | inr e ↦ rw e (here, Each-alter P k f m keeps a)
  ]

  -- A key out of the range of all keys is not there.
  pub find-none_above :
      (n : ℕ) (m : List (ℕ × V)) → Each (λ (k : ℕ) (v : V). k < n) m → find n m ≡ none
  unfolding find
  find-none_above n [] a = refl
  find-none_above n ((i, w) ∷ m) (here, a) =
      rw (ne→==_false i n (omega arith)) (find-none_above n m a)

  pub Each-weaken {κ μ} :
      {P : ℕ → V → Type κ} {R : ℕ → V → Type μ}
      → ((k : ℕ) (v : V) → P k v → R k v)
      → (m : List (ℕ × V)) → Each P m
      → Each R m
  Each-weaken f [] a = tt
  Each-weaken f ((i, v) ∷ m) (here, a) = (f i v here, Each-weaken f m a)

  pub find-head : (k : ℕ) (v : V) (m : List (ℕ × V)) → find k ((k, v) ∷ m) ≡ some v
  find-head k v m = find_here k k v m (==_refl k)

  pub find-tail : (j k : ℕ) (v : V) (m : List (ℕ × V)) → k ≢ j → find j ((k, v) ∷ m) ≡ find j m
  find-tail j k v m ne = find_there j k v m (ne→==_false k j ne)

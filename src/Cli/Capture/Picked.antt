-- ===== src/Cli/Capture/Picked.antt =====
-- internal/cli/capture.go: lists whose names were handed out by a namer.
use ghostgpu.Base.{
  List, [], ◌∷◌, ◌++◌, map, ◌≡◌, refl, ap, inl, inr, Text, text_eq, All, All-imp, All-append,
  Any-append_left, Any-append_right, In, Distinct, Distinct-append, not-is_in,
}
use ghostgpu.Cli.Names.{pick}
use ghostgpu.Cli.Names.Fresh.{pick-fresh, pick-taken}

-- Names that are handed out one after the other, with the namer behind them.
module _ {A : Type 0} (name_of : A → Text) where
  pub record IsNamed (xs : List A) (taken : List Text) : Type 0 where
    pub distinct : Distinct (map name_of xs)
    pub noted : All (λ x. In (name_of x) taken) xs

  not-In-map :
      (n : Text) (xs : List A) (taken : List Text)
      → All (λ x. In (name_of x) taken) xs
      → ¬ In n taken
      → ¬ In n (map name_of xs)
  not-In-map n [] taken h fresh i = i
  not-In-map n (x ∷ xs) taken (at, h) fresh (inl e) = fresh (rw e at)
  not-In-map n (x ∷ xs) taken (at, h) fresh (inr i) = not-In-map n xs taken h fresh i

  map-snoc :
      (xs : List A) (x : A) → map name_of (xs ++ (x ∷ [])) ≡ map name_of xs ++ (name_of x ∷ [])
  map-snoc [] x = refl
  map-snoc (y ∷ ys) x = ap (◌∷◌ (name_of y)) (map-snoc ys x)

  -- One more thing under a name that was picked.
  pub pick-IsNamed :
      (xs : List A) (x : A) (taken : List Text) (base : Text)
      → name_of x ≡ (pick taken base).0
      → IsNamed xs taken
      → IsNamed (xs ++ (x ∷ [])) (pick taken base).1
  pick-IsNamed xs x taken base e h =
      let name = (pick taken base).0 in
      let fresh : ¬ In name taken = not-is_in name taken (pick-fresh taken base) in
      let apart : ¬ In (name_of x) (map name_of xs) =
        rw e (not-In-map name xs taken h.noted fresh) in
      record {
        distinct = rw (map-snoc xs x) (
            Distinct-append (map name_of xs) (name_of x ∷ []) h.distinct ((λ i. i), tt)
              (λ a i. λ j. elim j [ inl q ↦ apart (rw (← q) i) | inr z ↦ z ]));
        noted = rw (pick-taken taken base) (
            All-append (λ y. In (name_of y) (name ∷ taken)) xs (x ∷ [])
              (All-imp (λ y i. inr i) xs h.noted) (inl e, tt));
      }

  pub In-snoc_left :
      (n : Text) (xs : List A) (x : A) → In n (map name_of xs) → In n (map name_of (xs ++ (x ∷ [])))
  In-snoc_left n xs x i =
      rw (map-snoc xs x) (Any-append_left (λ y. n ≡ y) (map name_of xs) (name_of x ∷ []) i)

  pub In-snoc_last : (xs : List A) (x : A) → In (name_of x) (map name_of (xs ++ (x ∷ [])))
  In-snoc_last xs x =
      rw (map-snoc xs x)
        (Any-append_right (λ y. name_of x ≡ y) (map name_of xs) (name_of x ∷ []) (inl refl))

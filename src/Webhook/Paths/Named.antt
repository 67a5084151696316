-- ===== src/Webhook/Paths/Named.antt =====
-- Errors that name a field, in lists that follow one another.
use gpu_k8s_operator.Prelude.{
  ◌≡◌, ◌≢◌, ◌∙◌, refl, sym, String, List, [], ◌∷◌, ◌++◌, ◌⊎◌, inl, inr, ◌↔◌, Any,
}
use gpu_k8s_operator.Webhook.{FieldError}

-- One of the errors is about the field.
abbrev pub Names : String → List FieldError → Type 0
Names f errs = Any (λ e. e.field ≡ f) errs

-- At most one error, and it is about the field.
abbrev pub OnlyAt : String → List FieldError → Type 0
OnlyAt f errs = (errs ≡ []) ⊎ ((e : FieldError) × (errs ≡ e ∷ []) × (e.field ≡ f))

OnlyAt-Names : (f : String) (errs : List FieldError) → OnlyAt f errs → Names f errs ↔ (errs ≢ [])
OnlyAt-Names f errs (inl e) = rw e ((λ m. absurd m), (λ n. n refl))
OnlyAt-Names f errs (inr (x, e, at)) = rw e ((λ m d. cc d), (λ n. inl at))

OnlyAt-ne : (f g : String) (errs : List FieldError) → OnlyAt f errs → f ≢ g → ¬ Names g errs
OnlyAt-ne f g errs (inl e) ne = rw e (λ m. m)
OnlyAt-ne f g errs (inr (x, e, at)) ne = rw e (λ m. elim m [ inl h ↦ ne (sym at ∙ h) | inr n ↦ n ])

Names-append :
    (f : String) (xs ys : List FieldError) → Names f (xs ++ ys) ↔ (Names f xs ⊎ Names f ys)
Names-append f [] ys = ((λ m. inr m), (λ m. elim m [ inl n ↦ absurd n | inr n ↦ n ]))
Names-append f (x ∷ xs) ys =
    let rest = Names-append f xs ys in
    (
      (λ m. elim m [
        | inl h ↦ inl (inl h)
        | inr n ↦ elim (rest.0 n) [ inl k ↦ inl (inr k) | inr k ↦ inr k ]
      ]),
      (λ m. elim m [
        | inl n ↦ elim n [ inl h ↦ inl h | inr k ↦ inr (rest.1 (inl k)) ]
        | inr k ↦ inr (rest.1 (inr k))
      ]),
    )

-- In front of errors about other fields, and behind them.
Names-front :
    (f : String) (xs ys : List FieldError)
    → OnlyAt f xs
    → ¬ Names f ys
    → Names f (xs ++ ys) ↔ (xs ≢ [])
Names-front f xs ys o n =
    let split = Names-append f xs ys in
    let own = OnlyAt-Names f xs o in
    (
      (λ m. elim (split.0 m) [ inl k ↦ own.0 k | inr k ↦ absurd (n k) ]),
      (λ k. split.1 (inl (own.1 k))),
    )

Names-behind :
    (f : String) (xs ys : List FieldError) → ¬ Names f xs → Names f (xs ++ ys) ↔ Names f ys
Names-behind f xs ys n =
    let split = Names-append f xs ys in
    ((λ m. elim (split.0 m) [ inl k ↦ absurd (n k) | inr k ↦ k ]), (λ k. split.1 (inr k)))

not-Names-append :
    (f : String) (xs ys : List FieldError) → ¬ Names f xs → ¬ Names f ys → ¬ Names f (xs ++ ys)
not-Names-append f xs ys n m k = elim ((Names-append f xs ys).0 k) [ inl x ↦ n x | inr y ↦ m y ]

pub iff_trans : {A B C : Type 0} → A ↔ B → B ↔ C → A ↔ C
iff_trans f g = ((λ a. g.0 (f.0 a)), (λ c. f.1 (g.1 c)))

pub not_iff : {A B : Type 0} → A ↔ B → (¬ A) ↔ (¬ B)
not_iff f = ((λ n b. n (f.1 b)), (λ n a. n (f.0 a)))

-- Lists of errors about different fields, one after the other.
module _ (f g h k l : String) (a b c d e : List FieldError) (oa : OnlyAt f a) (ob : OnlyAt g b)
    (oc : OnlyAt h c) (od : OnlyAt k d) (oe : OnlyAt l e) (fg : f ≢ g) (fh : f ≢ h) (fk : f ≢ k)
    (fl : f ≢ l) (gh : g ≢ h) (gk : g ≢ k) (gl : g ≢ l) (hk : h ≢ k) (hl : h ≢ l) (kl : k ≢ l) where
  OnlyAt-ne' : (x y : String) (errs : List FieldError) → OnlyAt y errs → x ≢ y → ¬ Names x errs
  OnlyAt-ne' x y errs o n = OnlyAt-ne y x errs o (λ p. n (sym p))

  pub five_Names :
      let errs = a ++ (b ++ (c ++ (d ++ e))) in
      (Names f errs ↔ (a ≢ []))
      × (Names g errs ↔ (b ≢ []))
      × (Names h errs ↔ (c ≢ []))
      × (Names k errs ↔ (d ≢ []))
      × (Names l errs ↔ (e ≢ []))
  five_Names = (
    Names-front f a (b ++ (c ++ (d ++ e))) oa (
        not-Names-append f b (c ++ (d ++ e)) (OnlyAt-ne' f g b ob fg) (
          not-Names-append f c (d ++ e) (OnlyAt-ne' f h c oc fh)
            (not-Names-append f d e (OnlyAt-ne' f k d od fk) (OnlyAt-ne' f l e oe fl)))),
    iff_trans (Names-behind g a (b ++ (c ++ (d ++ e))) (OnlyAt-ne f g a oa fg)) (
        Names-front g b (c ++ (d ++ e)) ob (
          not-Names-append g c (d ++ e) (OnlyAt-ne' g h c oc gh)
            (not-Names-append g d e (OnlyAt-ne' g k d od gk) (OnlyAt-ne' g l e oe gl)))),
    iff_trans (Names-behind h a (b ++ (c ++ (d ++ e))) (OnlyAt-ne f h a oa fh)) (
        iff_trans (Names-behind h b (c ++ (d ++ e)) (OnlyAt-ne g h b ob gh)) (
          Names-front h c (d ++ e) oc
            (not-Names-append h d e (OnlyAt-ne' h k d od hk) (OnlyAt-ne' h l e oe hl)))),
    iff_trans (Names-behind k a (b ++ (c ++ (d ++ e))) (OnlyAt-ne f k a oa fk)) (
        iff_trans (Names-behind k b (c ++ (d ++ e)) (OnlyAt-ne g k b ob gk)) (
          iff_trans (Names-behind k c (d ++ e) (OnlyAt-ne h k c oc hk))
            (Names-front k d e od (OnlyAt-ne' k l e oe kl)))),
    iff_trans (Names-behind l a (b ++ (c ++ (d ++ e))) (OnlyAt-ne f l a oa fl)) (
        iff_trans (Names-behind l b (c ++ (d ++ e)) (OnlyAt-ne g l b ob gl)) (
          iff_trans (Names-behind l c (d ++ e) (OnlyAt-ne h l c oc hl))
            (iff_trans (Names-behind l d e (OnlyAt-ne k l d od kl)) (OnlyAt-Names l e oe)))),
  )

-- ===== src/Prelude/Effects.antt =====
-- Code that makes calls, as functions of what was called before. A call is noted as an event, and
-- what it answers may depend on all events before it.
use mathlib.Core.Path.{◌≡◌, refl, ap, subst}
use mathlib.Core.Bool.{Bool, true, false}
use mathlib.Core.List.{List, ◌∷◌}
use forge_sync.Prelude.Bytes.{Str}
use forge_sync.Prelude.Lists.{All}
use forge_sync.Prelude.Tests.{if◌then◌else◌}

-- A call's answer, or its error.
pub data Answer {ℓ} (A : Type ℓ) : Type ℓ where
  given : A → Answer A
  failed : Str → Answer A

-- The events, the latest first, are passed along.
abbrev pub Effect : Type 0 → Type 0 → Type 0
Effect E A = List E → Answer A × List E

module _ {E : Type 0} where
  abbrev pub bound : {A B : Type 0} → Answer A → (A → Effect E B) → Effect E B
  bound (given a) f h = f a h
  bound (failed e) f h = (failed e, h)

  infixl 5 ◌>>=◌ ◌>>◌
  abbrev pub ◌>>=◌ : {A B : Type 0} → Effect E A → (A → Effect E B) → Effect E B
  ◌>>=◌ m f h = bound ((m h).0) f ((m h).1)

  abbrev pub ◌>>◌ : {A B : Type 0} → Effect E A → Effect E B → Effect E B
  ◌>>◌ m k h = bound ((m h).0) (λ _. k) ((m h).1)

  abbrev pub give : {A : Type 0} → A → Effect E A
  give a h = (given a, h)

  abbrev pub fail : {A : Type 0} → Str → Effect E A
  fail e h = (failed e, h)

  -- A call, with its event.
  abbrev pub call : {A : Type 0} → (List E → Answer A) → E → Effect E A
  call answer e h = (answer h, e ∷ h)

  -- A note with no answer to wait for.
  abbrev pub tell : E → Effect E (Unit {0})
  tell e h = (given tt, e ∷ h)

  -- An error handed to the code that follows.
  abbrev pub attempt : {A : Type 0} → Effect E A → Effect E (Answer A)
  attempt m h = (given ((m h).0), (m h).1)

  -- A result of two steps has a result of the first.
  bound-eq-given :
      {A B : Type 0} (o : Answer A) (f : A → Effect E B) (b : B) (h h2 : List E)
      → bound o f h ≡ (given b, h2)
      → (a : A) × (o ≡ given a) × (f a h ≡ (given b, h2))
  bound-eq-given (given a) f b h h2 e = (a, refl, e)
  bound-eq-given (failed x) f b h h2 e = cc

  pub >>=-eq-given :
      {A B : Type 0} (m : Effect E A) (f : A → Effect E B) (b : B) (h h2 : List E)
      → (m >>= f) h ≡ (given b, h2)
      → (a : A) × (h1 : List E) × (m h ≡ (given a, h1)) × (f a h1 ≡ (given b, h2))
  >>=-eq-given m f b h h2 e =
      let (a, o, k) = bound-eq-given ((m h).0) f b ((m h).1) h2 e in
      (a, (m h).1, ap (λ x. (x, (m h).1)) o, k)

  -- What the code gives, where it gives something, is so.
  module _ {B : Type 0} (Q : B → Type 0) where
    pub record Returns (m : Effect E B) : Type 0 where
      pub returns : (b : B) (h h2 : List E) → m h ≡ (given b, h2) → Q b

    pub Returns-give : (b : B) → Q b → Returns (give b)
    Returns-give b q = record { returns = λ c h h2 e. subst Q (given-inj b c h h2 e) q }
      where
        given-inj :
            (b c : B) (h h2 : List E)
            → ◌≡◌ {A = Answer B × List E} (given b, h) (given c, h2)
            → b ≡ c
        given-inj b c h h2 e = cc

    pub Returns-fail : (e : Str) → Returns (fail e)
    Returns-fail e = record { returns = λ c h h2 k. absurd (not_given c h h2 k) }
      where
        not_given :
            (c : B) (h h2 : List E) → ◌≡◌ {A = Answer B × List E} (failed e, h) (given c, h2) → ⊥
        not_given c h h2 k = cc

    -- What a call gives, it answered at some time.
    pub Returns-call :
        (answer : List E → Answer B) (e : E)
        → ((b : B) (h : List E) → answer h ≡ given b → Q b)
        → Returns (call answer e)
    Returns-call answer e k = record { returns = λ b h h2 q. k b h (ap (λ x. x.0) q) }

    pub Returns->>= :
        {A : Type 0} (m : Effect E A) (f : A → Effect E B)
        → ((a : A) → Returns (f a))
        → Returns (m >>= f)
    Returns->>= m f k = record {
      returns =
          λ b h h2 e. let (a, h1, o, l) = >>=-eq-given m f b h h2 e in (k a).returns b h1 h2 l;
    }

    pub Returns->> : {A : Type 0} (m : Effect E A) (n : Effect E B) → Returns n → Returns (m >> n)
    Returns->> m n k = Returns->>= m (λ _. n) (λ _. k)

    pub Returns-if :
        (b : Bool) (m n : Effect E B) → Returns m → Returns n → Returns (if b then m else n)
    Returns-if true m n k l = k
    Returns-if false m n k l = l

  -- Every event that the code adds passes.
  module _ (P : E → Type 0) where
    pub record Keeps {A : Type 0} (m : Effect E A) : Type 0 where
      pub keeps : (h : List E) → All P h → All P ((m h).1)

    pub Keeps-give : {A : Type 0} (a : A) → Keeps (give a)
    Keeps-give a = record { keeps = λ h p. p }

    pub Keeps-fail : {A : Type 0} (e : Str) → Keeps {A = A} (fail e)
    Keeps-fail e = record { keeps = λ h p. p }

    pub Keeps-call : {A : Type 0} (answer : List E → Answer A) (e : E) → P e → Keeps (call answer e)
    Keeps-call answer e q = record { keeps = λ h p. (q, p) }

    pub Keeps-tell : (e : E) → P e → Keeps (tell e)
    Keeps-tell e q = record { keeps = λ h p. (q, p) }

    bound-Keeps :
        {A B : Type 0} (o : Answer A) (f : A → Effect E B)
        → ((a : A) → Keeps (f a))
        → (h : List E) → All P h
        → All P ((bound o f h).1)
    bound-Keeps (given a) f k h p = (k a).keeps h p
    bound-Keeps (failed e) f k h p = p

    pub Keeps->>= :
        {A B : Type 0} (m : Effect E A) (f : A → Effect E B)
        → Keeps m
        → ((a : A) → Keeps (f a))
        → Keeps (m >>= f)
    Keeps->>= m f k l = record { keeps = λ h p. bound-Keeps ((m h).0) f l ((m h).1) (k.keeps h p) }

    pub Keeps->> :
        {A B : Type 0} (m : Effect E A) (n : Effect E B) → Keeps m → Keeps n → Keeps (m >> n)
    Keeps->> m n k l = record {
      keeps = λ h p. bound-Keeps ((m h).0) (λ _. n) (λ _. l) ((m h).1) (k.keeps h p);
    }

    pub Keeps-attempt : {A : Type 0} (m : Effect E A) → Keeps m → Keeps (attempt m)
    Keeps-attempt m k = record { keeps = k.keeps }

    pub Keeps-if :
        {A : Type 0} (b : Bool) (m n : Effect E A) → Keeps m → Keeps n → Keeps (if b then m else n)
    Keeps-if true m n k l = k
    Keeps-if false m n k l = l

  -- The two branches know how the test went.
  pub Keeps-if_of :
      {A : Type 0} (P : E → Type 0) (b : Bool) (m n : Effect E A)
      → (b ≡ true → Keeps P m)
      → (b ≡ false → Keeps P n)
      → Keeps P (if b then m else n)
  Keeps-if_of P true m n k l = k refl
  Keeps-if_of P false m n k l = l refl

  pub Returns-if_of :
      {A : Type 0} (Q : A → Type 0) (b : Bool) (m n : Effect E A)
      → (b ≡ true → Returns Q m)
      → (b ≡ false → Returns Q n)
      → Returns Q (if b then m else n)
  Returns-if_of Q true m n k l = k refl
  Returns-if_of Q false m n k l = l refl

  -- A step's result is known to the next one.
  pub Returns->>=_of :
      {A B : Type 0} (R : A → Type 0) (Q : B → Type 0) (m : Effect E A) (f : A → Effect E B)
      → Returns R m
      → ((a : A) → R a → Returns Q (f a))
      → Returns Q (m >>= f)
  Returns->>=_of R Q m f k l = record {
    returns = λ b h h2 e.
        let (a, h1, o, x) = >>=-eq-given m f b h h2 e in
        (l a (k.returns a h h1 o)).returns b h1 h2 x;
  }

  bound-Keeps_of :
      {A B : Type 0} (R : A → Type 0) (P : E → Type 0) (o : Answer A) (f : A → Effect E B)
      (h : List E)
      → ((a : A) → o ≡ given a → R a)
      → ((a : A) → R a → Keeps P (f a))
      → All P h
      → All P ((bound o f h).1)
  bound-Keeps_of R P (given a) f h r k p = (k a (r a refl)).keeps h p
  bound-Keeps_of R P (failed e) f h r k p = p

  pub Keeps->>=_of :
      {A B : Type 0} (R : A → Type 0) (P : E → Type 0) (m : Effect E A) (f : A → Effect E B)
      → Returns R m
      → Keeps P m
      → ((a : A) → R a → Keeps P (f a))
      → Keeps P (m >>= f)
  Keeps->>=_of R P m f r k l = record {
    keeps = λ h p.
        bound-Keeps_of R P ((m h).0) f ((m h).1)
          (λ a e. r.returns a h ((m h).1) (ap (λ x. (x, (m h).1)) e)) l (k.keeps h p);
  }

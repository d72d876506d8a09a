-- ===== src/Publication/Act/Rules.antt =====
-- Rules for how a computation ends: what holds if it returns, if it raises, and at a crash.
use deployment.Base.{List, [], ◌∷◌}
use deployment.Publication.Disk.{Disk}
use deployment.Publication.Act.{
  Failure, Outcome, returned, raised, crashed, Verdict, done, fails, crashes, Act, next, attempt,
  handled, ended, reraise, keep,
}

-- `Q` at a return, `R` at an exception, and `S` at a crash.
abbrev pub Ends :
    {A : Type 0}
    → (Disk → Type 0)
    → (A → Disk → Type 0)
    → (Disk → Type 0)
    → Outcome A × Disk × List Verdict
    → Type 0
Ends S Q R (returned a, d, s) = Q a d
Ends S Q R (raised e, d, s) = R d
Ends S Q R (crashed, d, s) = S d

module _ (S : Disk → Type 0) where
  pub attempt-Ends :
      (Q : Unit {0} → Disk → Type 0) (R : Disk → Type 0) (f : Disk → Disk) (d : Disk)
      (s : List Verdict)
      → S d
      → R d
      → Q tt (f d)
      → Ends S Q R (attempt f d s)
  unfolding attempt
  attempt-Ends Q R f d [] safe refused changed = changed
  attempt-Ends Q R f d (done ∷ s) safe refused changed = changed
  attempt-Ends Q R f d (fails ∷ s) safe refused changed = refused
  attempt-Ends Q R f d (crashes ∷ s) safe refused changed = safe

  pub next-Ends :
      {A B : Type 0} (P : A → Disk → Type 0) (Q : B → Disk → Type 0) (R : Disk → Type 0)
      (o : Outcome A × Disk × List Verdict) (k : A → Act B)
      → Ends S P R o
      → ((a : A) (d : Disk) (s : List Verdict) → P a d → Ends S Q R (k a d s))
      → Ends S Q R (next o k)
  next-Ends P Q R (returned a, d, s) k h go = go a d s h
  next-Ends P Q R (raised e, d, s) k h go = h
  next-Ends P Q R (crashed, d, s) k h go = h

  reraise-Ends :
      {A : Type 0} (Q : A → Disk → Type 0) (R : Disk → Type 0) (e : Failure)
      (o : Outcome (Unit {0}) × Disk × List Verdict)
      → Ends S (λ _. R) R o
      → Ends S Q R (reraise e o)
  reraise-Ends Q R e (returned _, d, s) h = h
  reraise-Ends Q R e (raised e', d, s) h = h
  reraise-Ends Q R e (crashed, d, s) h = h

  keep-Ends :
      {A : Type 0} (Q : A → Disk → Type 0) (R : Disk → Type 0) (a : A)
      (o : Outcome (Unit {0}) × Disk × List Verdict)
      → Ends S (λ _. Q a) R o
      → Ends S Q R (keep a o)
  keep-Ends Q R a (returned _, d, s) h = h
  keep-Ends Q R a (raised e', d, s) h = h
  keep-Ends Q R a (crashed, d, s) h = h

  pub handled-Ends :
      {A : Type 0} (Q : A → Disk → Type 0) (P R : Disk → Type 0)
      (o : Outcome A × Disk × List Verdict) (handler : Act (Unit {0}))
      → Ends S Q P o
      → ((d : Disk) (s : List Verdict) → P d → Ends S (λ _. R) R (handler d s))
      → Ends S Q R (handled o handler)
  handled-Ends Q P R (returned a, d, s) handler h go = h
  handled-Ends Q P R (raised e, d, s) handler h go = reraise-Ends Q R e (handler d s) (go d s h)
  handled-Ends Q P R (crashed, d, s) handler h go = h

  pub ended-Ends :
      {A : Type 0} (P Q : A → Disk → Type 0) (P' R : Disk → Type 0)
      (o : Outcome A × Disk × List Verdict) (last : Act (Unit {0}))
      → Ends S P P' o
      → ((a : A) (d : Disk) (s : List Verdict) → P a d → Ends S (λ _. Q a) R (last d s))
      → ((d : Disk) (s : List Verdict) → P' d → Ends S (λ _. R) R (last d s))
      → Ends S Q R (ended o last)
  ended-Ends P Q P' R (returned a, d, s) last h good bad = keep-Ends Q R a (last d s) (good a d s h)
  ended-Ends P Q P' R (raised e, d, s) last h good bad = reraise-Ends Q R e (last d s) (bad d s h)
  ended-Ends P Q P' R (crashed, d, s) last h good bad = h

  -- A weaker claim about the same end.
  pub Ends-weaken :
      {A : Type 0} (P Q : A → Disk → Type 0) (P' R : Disk → Type 0)
      (o : Outcome A × Disk × List Verdict)
      → Ends S P P' o
      → ((a : A) (d : Disk) → P a d → Q a d)
      → ((d : Disk) → P' d → R d)
      → Ends S Q R o
  Ends-weaken P Q P' R (returned a, d, s) h good bad = good a d h
  Ends-weaken P Q P' R (raised e, d, s) h good bad = bad d h
  Ends-weaken P Q P' R (crashed, d, s) h good bad = h

-- ===== src/Runtime/Agent/Flow.antt =====
-- What the parts of the loop of agent.rs come to, as a predicate that is put together like the loop.
use graphnight.Base.{Bool, true, false, ◌≡◌, refl, ◌⊎◌, inl, inr, if◌then◌else◌}
use graphnight.Runtime.Agent.{AgentRun}
use graphnight.Runtime.Agent.Loop.{Loop, Flow, returned, running, and_then}

-- What a flow comes to: `Q` of the run that it returns, or `P` of the variables it goes on with.
pub data Meets {W : Type 0} (Q : AgentRun → Type 0) (P : Loop → Type 0) : Flow W → Type 0 where
  returns : {run : AgentRun} {w : W} → Q run → Meets Q P (returned run w)
  goes_on : {l : Loop} {w : W} → P l → Meets Q P (running l w)

pub Meets-if :
    {W : Type 0} (Q : AgentRun → Type 0) (P : Loop → Type 0) (t : Bool) (a b : Flow W)
    → (t ≡ true → Meets Q P a)
    → (t ≡ false → Meets Q P b)
    → Meets Q P (if t then a else b)
Meets-if Q P true a b f g = f refl
Meets-if Q P false a b f g = g refl

pub Meets-and_then :
    {W : Type 0} (Q : AgentRun → Type 0) (P P' : Loop → Type 0) (f : Flow W)
    (next : Loop → W → Flow W)
    → Meets Q P f
    → ((l : Loop) (w : W) → P l → Meets Q P' (next l w))
    → Meets Q P' (and_then f next)
Meets-and_then Q P P' (returned run w) next (returns q) k = returns q
Meets-and_then Q P P' (running l w) next (goes_on p) k = k l w p

pub Meets-weaken :
    {W : Type 0} (Q : AgentRun → Type 0) (P P' : Loop → Type 0)
    → ((l : Loop) → P l → P' l)
    → (f : Flow W) → Meets Q P f
    → Meets Q P' f
Meets-weaken Q P P' k (returned run w) (returns q) = returns q
Meets-weaken Q P P' k (running l w) (goes_on p) = goes_on (k l p)

pub Meets-cases :
    {W : Type 0} (Q : AgentRun → Type 0) (P : Loop → Type 0) (f : Flow W)
    → Meets Q P f
    → ((run : AgentRun) × (w : W) × (f ≡ returned run w) × Q run)
      ⊎ ((l : Loop) × (w : W) × (f ≡ running l w) × P l)
Meets-cases Q P (returned run w) (returns q) = inl (run, w, refl, q)
Meets-cases Q P (running l w) (goes_on p) = inr (l, w, refl, p)

-- ===== src/Client/Mail.antt =====
-- What a request has got of the responses that were read, and what it waits for.
use ohmcp.Client.Receive.{is_response, kind, Kind, close}
use ohmcp.Client.State.{Incoming, arrived, ended, broken, late, OhmcpClient}
use ohmcp.Base.{
  arith, ◌≢◌, ==_iff, refl, ◌&&◌, ℕ, Bool, true, false, ◌≡◌, List, [], ◌∷◌, Option, none, some,
  if◌then◌else◌, ◌==◌,
}
use ohmcp.Base.Equality.{nat_eq}
use ohmcp.Base.Maps.{lookup, contains, lookup-remove, contains-discard}
use ohmcp.Core.Frame.{Frame, shm_ref}

-- No frame is a reference to shared memory.
abbrev pub Plain : List Incoming → Type 0
Plain [] = Unit {0}
Plain (arrived f ∷ rest) = (shm_ref f.header.flags ≡ false) × Plain rest
Plain (ended ∷ rest) = Plain rest
Plain (broken e ∷ rest) = Plain rest
Plain (late ∷ rest) = Plain rest

abbrev pub is_answer : Kind → Bool
is_answer is_response = true
is_answer _ = false

-- The first response to a request.
abbrev pub first_for : ℕ → List Incoming → Option Frame
first_for j [] = none
first_for j (arrived f ∷ rest) =
    if is_answer (kind f.header.msg_type) && f.header.request_id == j
    then some f
    else first_for j rest
first_for j (ended ∷ rest) = first_for j rest
first_for j (broken e ∷ rest) = first_for j rest
first_for j (late ∷ rest) = first_for j rest

abbrev pub or_else : Option Frame → Option Frame → Option Frame
or_else none o = o
or_else (some f) o = some f

pub or_else-none : (o : Option Frame) → or_else o none ≡ o
or_else-none none = refl
or_else-none (some f) = refl

pub or_else_assoc : (o p q : Option Frame) → or_else (or_else o p) q ≡ or_else o (or_else p q)
or_else_assoc none p q = refl
or_else_assoc (some f) p q = refl

pub or_else_if :
    (b : Bool) (f : Frame) (o : Option Frame)
    → or_else (if b then some f else none) o ≡ (if b then some f else o)
or_else_if true f o = refl
or_else_if false f o = refl

-- What a request has and waits for: its mail, or its place among the pending ones, with a receiver
-- that it has not dropped.
abbrev pub Awaits : ℕ → OhmcpClient → Option Frame → Type 0
Awaits j c none =
    (contains j c.pending ≡ true) × (lookup j c.mailbox ≡ none) × (contains j c.receivers ≡ true)
Awaits j c (some f) = (contains j c.pending ≡ false) × (lookup j c.mailbox ≡ some f)

-- A request that gives up takes nothing from another.
pub close-Awaits :
    (id j : ℕ) (c : OhmcpClient) (o : Option Frame)
    → j ≢ id
    → Awaits j c o
    → Awaits j (close id c) o
close-Awaits id j c none other w =
    ground
      (arith, lookup-remove id j c.mailbox, contains-discard id j c.receivers, ==_iff id j, other)
close-Awaits id j c (some f) other w =
    ground (arith, lookup-remove id j c.mailbox, ==_iff id j, other)

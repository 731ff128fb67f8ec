-- ===== src/Collaboration/MutationQueue/Order.antt =====
-- document-mutation-queue.service.ts: the calls of one document, and the order that they are in.
use uml_class_designer_be.Common.{
  ℕ, suc, ◌<◌, String, Bool, true, false, not, ◌&&◌, ◌||◌, ◌≡◌, refl, ◌⊎◌, inl, inr, Option, none,
  some, List, [], ◌∷◌, length, ◌==◌, if◌then◌else◌, arith, ==-cases, subst, sym,
}
use uml_class_designer_be.Collaboration.MutationQueue.{
  Phase, QueuedCall, is_waiting, is_released, find_call, is_resolved,
}

-- the last call of a document
abbrev pub newest : String → List QueuedCall → Option QueuedCall
newest d [] = none
newest d (c ∷ older) = if c.document_id == d then some c else newest d older

abbrev pub open_tail : Option QueuedCall → Option ℕ
open_tail none = none
open_tail (some c) = if is_released c.phase then none else some c.ticket

abbrev pub all_released : String → List QueuedCall → Bool
all_released d [] = true
all_released d (c ∷ older) =
    (not (c.document_id == d) || is_released c.phase) && all_released d older

-- how many calls of a document are not over
abbrev pub open_count : String → List QueuedCall → ℕ
open_count d [] = 0
open_count d (c ∷ older) =
    if c.document_id == d && not (is_released c.phase)
    then suc (open_count d older)
    else open_count d older

abbrev pub Precedes : Option ℕ → ℕ → Type 0
Precedes none n = Unit
Precedes (some t) n = t < n

-- Tickets count the calls, and a call awaits an older one.
abbrev pub IsNumbered : List QueuedCall → Type 0
IsNumbered [] = Unit
IsNumbered (c ∷ older) =
    (c.ticket ≡ length older) × Precedes c.previous (length older) × IsNumbered older

-- What a call awaits: the call before it, or nothing if that was over already.
abbrev pub Follows : Option ℕ → String → List QueuedCall → Type 0
Follows none d older = all_released d older ≡ true
Follows (some t) d older = (c : QueuedCall) × (newest d older ≡ some c) × (c.ticket ≡ t)

-- A call awaits the one before it, and has begun only if all before it are over.
pub record IsTurn (d : String) (c : QueuedCall) (older : List QueuedCall) : Type 0 where
  pub follows : Follows c.previous d older
  pub after : is_waiting c.phase ≡ false → all_released d older ≡ true

abbrev pub IsOrdered : String → List QueuedCall → Type 0
IsOrdered d [] = Unit
IsOrdered d (c ∷ older) = (c.document_id ≡ d → IsTurn d c older) × IsOrdered d older

pub find_call-lt :
    (t : ℕ) (calls : List QueuedCall) (c : QueuedCall)
    → IsNumbered calls
    → find_call t calls ≡ some c
    → (t < length calls) × (c.ticket ≡ t)
find_call-lt t [] c n h = absurd (cc)
find_call-lt t (x ∷ older) c n h = ground (arith, find_call-lt t older c n.2)

pub newest-lt :
    (d : String) (calls : List QueuedCall) (c : QueuedCall)
    → IsNumbered calls
    → newest d calls ≡ some c
    → c.ticket < length calls
newest-lt d [] c n h = absurd (cc)
newest-lt d (x ∷ older) c n h = ground (arith, newest-lt d older c n.2)

pub is_resolved-older :
    (x : QueuedCall) (older : List QueuedCall) (p : Option ℕ)
    → x.ticket ≡ length older
    → Precedes p (length older)
    → is_resolved (x ∷ older) p ≡ is_resolved older p
is_resolved-older x older none e h = ground arith
is_resolved-older x older (some t) e h = ground arith

pub newest_same :
    (d : String) (x : QueuedCall) (older : List QueuedCall) (c : QueuedCall)
    → (x.document_id == d) ≡ true
    → newest d (x ∷ older) ≡ some c
    → x ≡ c
newest_same d x older c e h = ground arith

pub newest_other :
    (d : String) (x : QueuedCall) (older : List QueuedCall)
    → (x.document_id == d) ≡ false
    → newest d (x ∷ older) ≡ newest d older
newest_other d x older e = ground arith

pub is_resolved_self :
    (x : QueuedCall) (older : List QueuedCall)
    → is_resolved (x ∷ older) (some x.ticket)
      ≡ (is_released x.phase && is_resolved older x.previous)
is_resolved_self x older = ground arith

released-not_waiting : (p : Phase) → is_released p ≡ true → is_waiting p ≡ false
released-not_waiting Phase.waiting h = cc
released-not_waiting Phase.running h = refl
released-not_waiting Phase.released h = refl

pub all_released-cons :
    (d : String) (x : QueuedCall) (older : List QueuedCall)
    → ((x.document_id == d) ≡ false) ⊎ (is_released x.phase ≡ true)
    → all_released d older ≡ true
    → all_released d (x ∷ older) ≡ true
all_released-cons d x older h k = ground arith

pub and_both : (a b : Bool) → (a && b) ≡ true → (a ≡ true) × (b ≡ true)
and_both true b h = (refl, h)
and_both false b h = cc

-- Where the last call of a document is resolved, all its calls are over.
pub all_released-of_resolved :
    (d : String) (calls : List QueuedCall) (c : QueuedCall)
    → IsNumbered calls
    → IsOrdered d calls
    → newest d calls ≡ some c
    → is_resolved calls (some c.ticket) ≡ true
    → all_released d calls ≡ true
all_released-of_resolved d [] c n o h r = absurd (cc)
all_released-of_resolved d (x ∷ older) c n o h r = elim (==-cases x.document_id d) [
  | inl hit ↦
      let same = newest_same d x older c hit.0 h in
      let own =
        subst (λ (y : QueuedCall). is_resolved (x ∷ older) (some y.ticket) ≡ true) (sym same) r in
      let both =
        and_both (is_released x.phase) (is_resolved older x.previous)
          (rw (← is_resolved_self x older) own) in
      all_released-cons d x older (inr both.0)
        ((o.0 hit.1).after (released-not_waiting x.phase both.0))
  | inr miss ↦
      let last : newest d older ≡ some c = rw (← newest_other d x older miss.0) h in
      all_released-cons d x older (inl miss.0) (
        all_released-of_resolved d older c n.2 o.1 last
          (rw (← is_resolved-older x older (some c.ticket) n.0 (newest-lt d older c n.2 last)) r))
]

pub Follows-resolved :
    (d : String) (older : List QueuedCall) (p : Option ℕ)
    → Follows p d older
    → ((y : QueuedCall) → newest d older ≡ some y → is_resolved older (some y.ticket) ≡ true)
    → is_resolved older p ≡ true
Follows-resolved d [] none f all = refl
Follows-resolved d (x ∷ older) none f all = refl
Follows-resolved d older (some t) (y, last, same) all = rw (← same) (all y last)

-- The other way: a promise of a document whose calls are over is resolved.
pub resolved-of_all_released :
    (d : String) (calls : List QueuedCall) (c : QueuedCall)
    → IsNumbered calls
    → IsOrdered d calls
    → newest d calls ≡ some c
    → all_released d calls ≡ true
    → is_resolved calls (some c.ticket) ≡ true
resolved-of_all_released d [] c n o h r = absurd (cc)
resolved-of_all_released d (x ∷ older) c n o h r = elim (==-cases x.document_id d) [
  | inl hit ↦
      let same = newest_same d x older c hit.0 h in
      let both =
        and_both (not (x.document_id == d) || is_released x.phase) (all_released d older) r in
      let own : is_released x.phase ≡ true = rw hit.0 at both.0 in
      let before : is_resolved older x.previous ≡ true =
        Follows-resolved d older x.previous (o.0 hit.1).follows
          (λ y last. resolved-of_all_released d older y n.2 o.1 last both.1) in
      rw (← same, is_resolved_self x older, own) before
  | inr miss ↦
      let last : newest d older ≡ some c = rw (← newest_other d x older miss.0) h in
      let both =
        and_both (not (x.document_id == d) || is_released x.phase) (all_released d older) r in
      rw (is_resolved-older x older (some c.ticket) n.0 (newest-lt d older c n.2 last))
        (resolved-of_all_released d older c n.2 o.1 last both.1)
]

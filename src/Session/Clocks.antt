-- ===== src/Session/Clocks.antt =====
-- The Lamport clocks of a context (aeon-vm/src/session.rs).
use aeon_flow.Base.{ℕ, ◌^◌, ◌<◌, ◌-◌, List, [], ◌∷◌, ◌++◌, map, arith, Bytes}
use aeon_flow.Session.{SharedContext, Lamport, SessionId, max_clock, next_clock, post_message}

-- Every clock of the list is below `n`.
abbrev pub AllBelow : List Lamport → Lamport → Type 0
AllBelow [] n = Unit
AllBelow (c ∷ cs) n = (c < n) × AllBelow cs n

AllBelow-max_clock : (cs : List Lamport) (n : Lamport) → max_clock cs < n → AllBelow cs n
unfolding max_clock
AllBelow-max_clock [] n l = tt
AllBelow-max_clock (c ∷ cs) n l = (omega arith, AllBelow-max_clock cs n (omega arith))

max_clock_below : (cs : List Lamport) (n : Lamport) → 0 < n → AllBelow cs n → max_clock cs < n
unfolding max_clock
max_clock_below [] n p b = p
max_clock_below (c ∷ cs) n p b = omega (arith, b.0, max_clock_below cs n p b.1)

AllBelow-append :
    (cs ds : List Lamport) (n : Lamport) → AllBelow cs n → AllBelow ds n → AllBelow (cs ++ ds) n
AllBelow-append [] ds n b d = d
AllBelow-append (c ∷ cs) ds n b d = (b.0, AllBelow-append cs ds n b.1 d)

abbrev pub clocks : SharedContext → List Lamport
clocks ctx = map (λ p. p.clock) ctx.patches ++ map (λ m. m.clock) ctx.messages

AllBelow-left :
    (cs ds : List Lamport) (n : Lamport) → AllBelow (cs ++ ds) n → AllBelow cs n × AllBelow ds n
AllBelow-left [] ds n b = (tt, b)
AllBelow-left (c ∷ cs) ds n b = let (x, y) = AllBelow-left cs ds n b.1 in ((b.0, x), y)

-- Where no clock of the context has reached 2 ^ 64 - 1, the clock that a message gets is above the
-- clocks of all patches and messages before it, so none has it yet.
pub post_message-clock :
    (now : ℕ) (author : SessionId) (text : Bytes) (ctx : SharedContext)
    → AllBelow (clocks ctx) (2 ^ 64 - 1)
    → AllBelow (clocks ctx) (post_message now author text ctx).0
unfolding post_message next_clock
post_message-clock now author text ctx b =
    let ps = map (λ p. p.clock) ctx.patches in
    let ms = map (λ m. m.clock) ctx.messages in
    let (bp, bm) = AllBelow-left ps ms (2 ^ 64 - 1) b in
    let lp = max_clock_below ps (2 ^ 64 - 1) (omega arith) bp in
    let lm = max_clock_below ms (2 ^ 64 - 1) (omega arith) bm in
    AllBelow-append ps ms _ (AllBelow-max_clock ps _ (omega (arith, lp, lm)))
      (AllBelow-max_clock ms _ (omega (arith, lp, lm)))

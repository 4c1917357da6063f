-- ===== src/Main/Tally.antt =====
-- What the handler of src/main.cpp has counted.
use udp_multicast_receiver.Common.{
  ℕ, suc, ◌+◌, ◌≡◌, ◌∙◌, refl, ap, sym, Bool, true, false, List, [], ◌∷◌, ◌++◌, length,
  length-append, ◌||◌, ◌==◌, get_or, if◌then◌else◌, u64, arith,
}
use udp_multicast_receiver.Wire.Mold.{MoldMessage}
use udp_multicast_receiver.Wire.Itch.{itch_type}
use udp_multicast_receiver.Gap.State.{Call, message, gap, retransmit}
use udp_multicast_receiver.Gap.Trace.{sent_bodies}
use udp_multicast_receiver.Main.{Handler, count_type, on_message, handler_of}

-- The number of bodies whose first byte is one of two; that of an empty body is what `memory` has
-- for its position in the list.
unfoldable pub tally : ℕ → ℕ → (ℕ → ℕ) → List (List ℕ) → ℕ
tally c d memory [] = 0
tally c d memory (body ∷ bodies) =
    let rest = tally c d (λ n. memory (suc n)) bodies in
    let first = get_or body 0 (memory 0) in if first == c || first == d then suc rest else rest

bump : Bool → ℕ → ℕ
bump true n = u64 (n + 1)
bump false n = n

add_of :
    (h : Handler) (behind : ℕ) (body : List ℕ)
    → (count_type h (itch_type behind body)).add_orders
      ≡ bump (get_or body 0 behind == b'A' || get_or body 0 behind == b'F') h.add_orders
unfolding count_type itch_type bump
add_of h behind body = ground arith

of_delete :
    (h : Handler) (behind : ℕ) (body : List ℕ)
    → (count_type h (itch_type behind body)).delete_orders
      ≡ bump (get_or body 0 behind == b'D' || get_or body 0 behind == b'D') h.delete_orders
unfolding count_type itch_type bump
of_delete h behind body = ground arith

of_exec :
    (h : Handler) (behind : ℕ) (body : List ℕ)
    → (count_type h (itch_type behind body)).executions
      ≡ bump (get_or body 0 behind == b'E' || get_or body 0 behind == b'C') h.executions
unfolding count_type itch_type bump
of_exec h behind body = ground arith

of_every :
    (h : Handler) (behind : ℕ) (body : List ℕ)
    → (count_type h (itch_type behind body)).total_messages ≡ h.total_messages
unfolding count_type itch_type
of_every h behind body = ground arith

tally-snoc :
    (c d : ℕ) (memory : ℕ → ℕ) (bodies : List (List ℕ)) (body : List ℕ)
    → let first = get_or body 0 (memory (length bodies)) in
      u64 (tally c d memory (bodies ++ (body ∷ [])))
      ≡ bump (first == c || first == d) (u64 (tally c d memory bodies))
unfolding tally bump
tally-snoc c d memory [] body = ground arith
tally-snoc c d memory (b ∷ bodies) body =
    ground (arith, tally-snoc c d (λ n. memory (suc n)) bodies body)

-- What the handler counts, read off the bodies delivered.
pub record Counts (memory : ℕ → ℕ) (h : Handler) (bodies : List (List ℕ)) : Type 0 where
  pub every : h.total_messages ≡ u64 (length bodies)
  pub adds : h.add_orders ≡ u64 (tally b'A' b'F' memory bodies)
  pub deletes : h.delete_orders ≡ u64 (tally b'D' b'D' memory bodies)
  pub executes : h.executions ≡ u64 (tally b'E' b'C' memory bodies)

on_message-Counts :
    (memory : ℕ → ℕ) (h : Handler) (m : MoldMessage) (bodies : List (List ℕ))
    → Counts memory h bodies
    → Counts memory (on_message h (memory (length bodies)) m) (bodies ++ (m.body ∷ []))
unfolding on_message
on_message-Counts memory h m bodies k =
    let h' : Handler = record h { total_messages = u64 (h.total_messages + 1) } in
    let behind : ℕ = memory (length bodies) in
    let first : ℕ = get_or m.body 0 behind in
    record {
      every =
          of_every h' behind m.body ∙ omega (arith, k.every, length-append bodies (m.body ∷ []));
      adds =
          add_of h' behind m.body
          ∙ ap (bump (first == b'A' || first == b'F')) k.adds
          ∙ sym (tally-snoc b'A' b'F' memory bodies m.body);
      deletes =
          of_delete h' behind m.body
          ∙ ap (bump (first == b'D' || first == b'D')) k.deletes
          ∙ sym (tally-snoc b'D' b'D' memory bodies m.body);
      executes =
          of_exec h' behind m.body
          ∙ ap (bump (first == b'E' || first == b'C')) k.executes
          ∙ sym (tally-snoc b'E' b'C' memory bodies m.body);
    }

module _ (memory : ℕ → ℕ) where
  pub handler_of-Counts :
      (calls : List Call) → Counts memory (handler_of memory calls) (sent_bodies calls)
  unfolding handler_of sent_bodies
  handler_of-Counts [] =
      unfold tally in record { every = refl; adds = refl; deletes = refl; executes = refl }
  handler_of-Counts (message m ∷ calls) =
      on_message-Counts memory (handler_of memory calls) m (sent_bodies calls)
        (handler_of-Counts calls)
  handler_of-Counts (gap ev ∷ calls) = handler_of-Counts calls
  handler_of-Counts (retransmit req ∷ calls) = handler_of-Counts calls

-- ===== src/Book/Multi/Arrival.antt =====
-- The books behind a buffer: the messages of include/feed/gap_buffer.hpp, handed to
-- MultiSymbolBook::ingest of include/feed/order_book.hpp.
use udp_multicast_receiver.Common.{ℕ, ◌≡◌, ◌∙◌, refl, ap, sym, List, [], ◌∷◌, ◌++◌, length}
use udp_multicast_receiver.Wire.Mold.{MoldMessage}
use udp_multicast_receiver.Gap.State.{GapBuffer, Call, message, gap, retransmit}
use udp_multicast_receiver.Gap.Ingest.{ingest, tick}
use udp_multicast_receiver.Gap.Retransmit.{check_gap_timeout}
use udp_multicast_receiver.Gap.Framing.{datagram_of}
use udp_multicast_receiver.Gap.Trace.{sent_bodies}
use udp_multicast_receiver.Gap.Framed.{AllFramed, Framed, ingest-Framed, check_gap_timeout-Framed}
use udp_multicast_receiver.Gap.Flow.{Flowing}
use udp_multicast_receiver.Gap.Inv.{IsValid}
use udp_multicast_receiver.Gap.Gather.{
  Chunk, In, Follows, all_bodies, IsHoldable, Event, arrives, ticks, happen, happen_all, Near,
}
use udp_multicast_receiver.Gap.Gather.Whole.{AllPast}
use udp_multicast_receiver.Gap.Gather.Prefix.{arrived_first, happen_all-prefix}
use udp_multicast_receiver.Book.Multi.{MultiSymbolBook, ingest_message}
use udp_multicast_receiver.Book.Multi.Clock.{ingest_message-clock}

-- The books after the buffer's calls, the newest first: on_message hands each message to them.
unfoldable pub books_of : MultiSymbolBook → List Call → MultiSymbolBook
books_of mb [] = mb
books_of mb (message m ∷ calls) = (ingest_message (books_of mb calls) m).0.0
books_of mb (gap ev ∷ calls) = books_of mb calls
books_of mb (retransmit req ∷ calls) = books_of mb calls

-- A message with a body alone.
abbrev pub bare : List ℕ → MoldMessage
bare body = record { length = length body; body = body; seq_num = 0; recv_ns = 0 }

-- The bodies given to the books one after the other, without a network.
abbrev pub books_direct : MultiSymbolBook → List (List ℕ) → MultiSymbolBook
books_direct mb [] = mb
books_direct mb (body ∷ bodies) = books_direct (ingest_message mb (bare body)).0.0 bodies

books_direct-snoc :
    (mb : MultiSymbolBook) (bodies : List (List ℕ)) (body : List ℕ)
    → books_direct mb (bodies ++ (body ∷ []))
      ≡ (ingest_message (books_direct mb bodies) (bare body)).0.0
books_direct-snoc mb [] body = refl
books_direct-snoc mb (first ∷ bodies) body =
    books_direct-snoc (ingest_message mb (bare first)).0.0 bodies body

bare-lem :
    (mb : MultiSymbolBook) (m : MoldMessage)
    → length m.body ≡ m.length
    → (ingest_message mb m).0.0 ≡ (ingest_message mb (bare m.body)).0.0
bare-lem mb m e =
    ingest_message-clock mb m 0 0
    ∙ ap
        (λ n.
          (ingest_message mb (record { length = n; body = m.body; seq_num = 0; recv_ns = 0 })).0.0)
        (sym e)

books_of-direct :
    (mb : MultiSymbolBook) (calls : List Call)
    → AllFramed calls
    → books_of mb calls ≡ books_direct mb (sent_bodies calls)
unfolding books_of sent_bodies
books_of-direct mb [] f = refl
books_of-direct mb (message m ∷ calls) f =
    bare-lem (books_of mb calls) m f.0
    ∙ ap (λ b. (ingest_message b (bare m.body)).0.0) (books_of-direct mb calls f.1)
    ∙ sym (books_direct-snoc mb (sent_bodies calls) m.body)
books_of-direct mb (gap ev ∷ calls) f = books_of-direct mb calls f
books_of-direct mb (retransmit req ∷ calls) f = books_of-direct mb calls f

happen_all-Framed :
    (s : List ℕ) (g : GapBuffer) (es : List Event) → Framed g → Framed (happen_all s g es)
unfolding happen_all happen tick
happen_all-Framed s g [] f = f
happen_all-Framed s g (arrives p now ∷ es) f =
    happen_all-Framed s (ingest g (datagram_of s p.seq p.bodies) now).0 es
      (ingest-Framed g (datagram_of s p.seq p.bodies) now f)
happen_all-Framed s g (ticks now ∷ es) f =
    happen_all-Framed s (check_gap_timeout g now) es (check_gap_timeout-Framed g now f)

-- The books behind a buffer do not depend on the order of arrival. A stream of well-formed
-- datagrams that follow one another from `q` to `end`, each of at most 1500 bytes behind its
-- header, reaches a valid buffer that has delivered `sent`, each message with its own length, waits
-- for `q` and holds nothing back; the datagrams arrive in any order and any number of times, mixed
-- with old ones that end at `q` or before and with ticks, and each starts less than 4096 numbers
-- above the number that the buffer waits for when it arrives. Then all orders, levels, routes and
-- counters of all books are what they would be if `sent`, and the messages of the datagrams before
-- the first one that has not arrived, had been given to the books directly, one after the other.
pub happen_all-books :
    (mb : MultiSymbolBook) (g : GapBuffer) (s : List ℕ) (q end : ℕ) (sent : List (List ℕ))
    (olds ps : List Chunk) (es : List Event)
    → IsValid g
    → Flowing g q sent
    → Framed g
    → AllPast q olds
    → Follows q ps end
    → ((x : Chunk) → In x (olds ++ ps) → IsHoldable s x)
    → Near s (olds ++ ps) g es
    → books_of mb (happen_all s g es).calls
      ≡ books_direct mb (sent ++ all_bodies (arrived_first ps es))
happen_all-books mb g s q end sent olds ps es v f framed old chain fits near =
    books_of-direct mb (happen_all s g es).calls (happen_all-Framed s g es framed)
    ∙ ap (λ b. books_direct mb b)
        (happen_all-prefix g s q end sent olds ps es v f old chain fits near).0

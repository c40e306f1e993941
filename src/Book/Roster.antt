-- ===== src/Book/Roster.antt =====
-- The roster that Dart reads is the book: the members of every channel are counted right, and the
-- lists have the book's length and order.
use nek.Common.{
  ℕ, ◌+◌, ◌≡◌, refl, ap, arith, List, [], ◌∷◌, map, filter, length, if◌then◌else◌, ◌==◌, Bool-cases,
  inl, inr, unwrap_or,
}
use nek.Common.Table.{Table, lookup, insert, lookup-insert, same_key}
use nek.Model.{World}
use nek.Book.Data.{Book, BookClient, BookChannel}
use nek.Book.Refresh.{GainOps, refresh_from_book, count_clients, values, channel_of}
use nek.Book.Events.{update_roster}

-- The clients of the book that are in a channel.
abbrev pub members : ℕ → List BookClient → List BookClient
members channel clients = filter (λ c. c.channel == channel) clients

abbrev count_of : ℕ → Table ℕ → ℕ
count_of channel count = unwrap_or (lookup channel count) 0

count_of-insert :
    (at channel n : ℕ) (count : Table ℕ)
    → count_of channel (insert at n count) ≡ (if at == channel then n else count_of channel count)
count_of-insert at channel n count = elim (Bool-cases (at == channel)) [
  | inl e ↦ rw (lookup-insert at channel n count) (simp e refl)
  | inr e ↦ rw (lookup-insert at channel n count) (simp e refl)
]

count_of-count_clients :
    (channel : ℕ) (clients : List BookClient) (count : Table ℕ)
    → count_of channel (count_clients clients count)
      ≡ count_of channel count + length (members channel clients)
unfolding count_clients
count_of-count_clients channel [] count = omega arith
count_of-count_clients channel (c ∷ cs) count =
    let n = count_of c.channel count + 1 in
    let rest = count_of-count_clients channel cs (insert c.channel n count) in
    let step = count_of-insert c.channel channel n count in
    elim (Bool-cases (c.channel == channel)) [
      | inl e ↦ rw e (
          omega (
            arith,
            rest,
            simp e at step,
            ap (λ k. count_of k count) (same_key c.channel channel e),
          ))
      | inr e ↦ rw e (omega (arith, rest, simp e at step))
    ]

fresh_count :
    (channel : ℕ) (clients : List BookClient)
    → count_of channel (count_clients clients []) ≡ length (members channel clients)
unfolding lookup
fresh_count channel clients = omega (arith, count_of-count_clients channel clients [])

counts :
    (clients : List BookClient) (channels : List BookChannel)
    → map (λ c. c.client_count) (map (channel_of (count_clients clients [])) channels)
      ≡ map (λ c. length (members c.id clients)) channels
unfolding lookup
counts clients [] = refl
counts clients (c ∷ cs) = rw (counts clients cs, fresh_count c.id clients) refl

-- When the roster is made new, Dart's list of channels has for each channel of the book, in the
-- book's order, the number of the book's clients that are in it.
pub client_count-update_roster :
    (o : GainOps) (now : ℕ) (book : Book) (w : World)
    → map (λ c. c.client_count) (update_roster o now book w).state.channels
      ≡ map (λ c. length (members c.id (values book.clients))) (values book.channels)
unfolding update_roster refresh_from_book
client_count-update_roster o now book w = counts (values book.clients) (values book.channels)

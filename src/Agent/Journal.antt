-- ===== src/Agent/Journal.antt =====
-- ai/agent-runtime/src/journal.rs: the append-only journal.
use b_browser.Prelude.{
  Bool, is_empty, List, Option, Str, [], ap, last, length, refl, ℕ, ◌++◌, ◌∷◌, ◌≡◌,
}

pub record JournalEntry : Type 0 where
  pub tool : Str
  pub site : Str

-- `JournalEntry::new`
abbrev pub new_entry : Str → Str → JournalEntry
new_entry tool site = record { tool = tool; site = site }

pub record ActionJournal : Type 0 where
  pub entries : List JournalEntry

unfoldable pub new : ActionJournal
new = record { entries = [] }

-- `record` is a reserved word.
unfoldable pub record_entry : ActionJournal → JournalEntry → ActionJournal
record_entry journal entry = record { entries = journal.entries ++ entry ∷ [] }

-- What `pop` leaves.
abbrev pub init : List JournalEntry → List JournalEntry
init [] = []
init (x ∷ []) = []
init (x ∷ y ∷ xs) = x ∷ init (y ∷ xs)

unfoldable pub undo : ActionJournal → Option JournalEntry × ActionJournal
undo journal = (last journal.entries, record { entries = init journal.entries })

unfoldable pub len : ActionJournal → ℕ
len journal = length journal.entries

unfoldable pub is_journal_empty : ActionJournal → Bool
is_journal_empty journal = is_empty journal.entries

pub init-append : (xs : List JournalEntry) (x : JournalEntry) → init (xs ++ x ∷ []) ≡ xs
init-append [] x = refl
init-append (y ∷ []) x = refl
init-append (y ∷ z ∷ xs) x = ap (λ l. y ∷ l) (init-append (z ∷ xs) x)

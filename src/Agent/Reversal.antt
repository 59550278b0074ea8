-- ===== src/Agent/Reversal.antt =====
-- What undoing brings back after a session.
use b_browser.Prelude.{List, Option, none, [], ◌∷◌, ◌++◌, ℕ, zero, suc}
use b_browser.Agent.Journal
use b_browser.Agent.Runtime
use b_browser.Agent.Journal.{JournalEntry, ActionJournal, undo}
use b_browser.Agent.Runtime.{Supervision}

-- The calls of `undo`, with what each returns.
unfoldable pub undo_times : ℕ → ActionJournal → List (Option JournalEntry) × ActionJournal
undo_times zero journal = ([], journal)
undo_times (suc n) journal =
    let first = undo journal in let later = undo_times n first.1 in (first.0 ∷ later.0, later.1)

-- The latest first.
abbrev pub latest_first : List JournalEntry → List JournalEntry
latest_first [] = []
latest_first (x ∷ xs) = latest_first xs ++ x ∷ []

abbrev pub nothing : ℕ → List (Option JournalEntry)
nothing zero = []
nothing (suc n) = none ∷ nothing n

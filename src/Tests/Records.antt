-- ===== src/Tests/Records.antt =====
use open_review.Base.{ℕ, ◌≡◌, refl, [], ◌∷◌, some, true, false, List}
use open_review.Runtime.Models.{RunJournalEvent, PublishStatus}
use open_review.Runtime.Store.Memory
use open_review.Runtime.Store.Sqlite
use open_review.Runtime.Store.Memory.Records as MemoryRecords
use open_review.Runtime.Store.Memory.Records.{limited}
use open_review.Runtime.Store.Sqlite.Records as SqliteRecords
use open_review.Runtime.Store.Sqlite.Records.{find_receipt}
use open_review.Runtime.Store.Sqlite.Race.{next_sequence, insert_journal_event, racing_record_lost}
use open_review.Runtime.Store.Agree.Receipts.{SameReceipts, claim-agrees}
use open_review.Runtime.Store.Agree.Journal.{list-record_all, record_all, of_execution}
use open_review.Tests.{program, world, receipt, journal_event}

abbrev NoReceipts : Type 0
NoReceipts = SameReceipts Memory.init Sqlite.init

empty-SameReceipts : NoReceipts
unfolding program MemoryRecords.get_publish_receipt SqliteRecords.get_publish_receipt find_receipt
empty-SameReceipts key op = refl

claim-agrees_example :
    let r = receipt PublishStatus.claimed in
    ((MemoryRecords.claim_publish_receipt world 5 r (some 900) Memory.init).0
      ≡ (SqliteRecords.claim_publish_receipt world 5 r (some 900) Sqlite.init).0)
    × SameReceipts
        (MemoryRecords.claim_publish_receipt world 5 r (some 900) Memory.init).1
        (SqliteRecords.claim_publish_receipt world 5 r (some 900) Sqlite.init).1
claim-agrees_example =
    claim-agrees world 5 (receipt PublishStatus.claimed) (some 900) Memory.init Sqlite.init
      empty-SameReceipts

-- two executions whose events interleave, on a clock that runs backwards
abbrev recorded : List (ℕ × RunJournalEvent)
recorded = (9, journal_event "x") ∷ (8, journal_event "y") ∷ (7, journal_event "x") ∷ []

list-record_all_example :
    SqliteRecords.list_run_journal "x" (some 1) (record_all recorded Sqlite.init)
    ≡ limited (some 1) (of_execution "x" recorded)
list-record_all_example = list-record_all recorded "x" (some 1)

racing_record_lost_example :
    let first =
      insert_journal_event 5 (next_sequence "x" Sqlite.init) (journal_event "x") Sqlite.init in
    (first ≡ (true, SqliteRecords.record_run_journal_event 5 (journal_event "x") Sqlite.init))
    × (insert_journal_event 6 (next_sequence "x" Sqlite.init) (journal_event "x") first.1
        ≡ (false, first.1))
racing_record_lost_example =
    racing_record_lost 5 6 (journal_event "x") (journal_event "x") Sqlite.init refl

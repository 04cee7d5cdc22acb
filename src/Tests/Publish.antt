-- ===== src/Tests/Publish.antt =====
use open_review.Base.{ℕ, ◌≡◌, refl, [], none, some, true, Option, String, ◌+◌}
use open_review.Base.Result.{Result, ok}
use open_review.Runtime.Models.{PublishReceipt, PublishStatus, mr_note, inline_comment}
use open_review.Runtime.Publish.{GitLabPublishService, Times, Outside, publish}
use open_review.Runtime.Publish.Idempotent.{receipt_at, publish_twice}
use open_review.Runtime.Store.Sqlite
use open_review.Runtime.Store.Sqlite.Records as SqliteRecords
use open_review.Runtime.Store.Sqlite.Records.{find_receipt, upsert_receipt}
use open_review.Runtime.Store.Agree.Receipts.{sqlite_receipts}
use open_review.Tests.{program, world, receipt}

abbrev service : GitLabPublishService
service = record { has_store = true; actor_key = some "a"; tracking_run_id = none }

abbrev first : Times
first = record { claim_stamp = "t0"; claim_now = 1; outcome_stamp = "t0"; outcome_now = 2 }

abbrev second : Times
second = record { claim_stamp = "t10"; claim_now = 3; outcome_stamp = "t10"; outcome_now = 4 }

-- GitLab counts its notes
abbrev post : ℕ → Result (Option String) × ℕ
post notes = (ok (some "12"), notes + 1)

abbrev outside : Outside world (sqlite_receipts world) ℕ
outside = record { receipts = Sqlite.init; gitlab = 0; tracked = [] }

abbrev published : Result PublishReceipt × Outside world (sqlite_receipts world) ℕ
published = publish world (sqlite_receipts world) 900 service first "op" mr_note post none outside

published_once : published.0 ≡ ok (receipt PublishStatus.completed)
unfolding program publish SqliteRecords.claim_publish_receipt SqliteRecords.get_publish_receipt
    find_receipt upsert_receipt
published_once = refl

publish_twice_example :
    publish world
      (sqlite_receipts world)
      900
      service
      second
      "op"
      inline_comment
      post
      none
      published.1
    ≡ (ok (receipt PublishStatus.completed), published.1)
publish_twice_example =
    publish_twice world (sqlite_receipts world) 900 service "op" refl first second mr_note
      inline_comment post post none none outside (receipt PublishStatus.completed) published_once
      refl

completed_there :
    receipt_at world (sqlite_receipts world) 900 service "op" published.1
    ≡ some (receipt PublishStatus.completed)
unfolding program publish SqliteRecords.claim_publish_receipt SqliteRecords.get_publish_receipt
    find_receipt upsert_receipt SqliteRecords.record_publish_receipt SqliteRecords.claim_write
completed_there = refl

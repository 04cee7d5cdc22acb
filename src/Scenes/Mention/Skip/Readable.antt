-- ===== src/Scenes/Mention/Skip/Readable.antt =====
-- The markers of a reply can be read again, and what its covered notes read back as.
use open_review.Base.{
  ℕ, ◌≡◌, ◌∙◌, inl, inr, refl, ap, Bool, true, false, not, Option, none, some, List, [], ◌∷◌, ◌++◌,
  map, All, All-append, eqb, is_empty, filter, arith, Bool-cases,
}
use open_review.Base.Codes.{Codes, codes, is_digit}
use open_review.Base.Spaces.{
  is_space, strip, strip-IsWord, split, split-join, join, join_tail, Lacks, all_of, some_of,
  some_of-All, some_of-weaken, all_of-append,
}
use open_review.Runtime.Models.Digits.{show-digits}
use open_review.Gitlab.Markers.{same_codes, is_value}
use open_review.Gitlab.Markers.Lines.{IsReadable}
use open_review.Scenes.Mention.Models.{
  ReplyKind, reply, follow_up, analysis, code_change, MentionContext, MentionExecutionResult,
}
use open_review.Scenes.Mention.Skip.{
  digits, has, subset, ids_or, optional_markers, reply_markers, subagents_marker, approved_marker,
  rounds_marker, commit_marker, bool_name, or_empty, intent_name,
}

digit_value : (c : ℕ) → is_digit c ≡ true → is_value c ≡ true
digit_value c h = ground arith

pub digits_value : (n : ℕ) → some_of is_value (digits n) ≡ true
digits_value n = some_of-weaken is_digit is_value digit_value (digits n) (show-digits n)

All-weaken_to : {P Q : ℕ → Type 0} → ((c : ℕ) → P c → Q c) → (s : Codes) → All P s → All Q s
All-weaken_to f [] h = tt
All-weaken_to f (c ∷ s) h = (f c h.0, All-weaken_to f s h.1)

digit_no_space : (c : ℕ) → is_digit c ≡ true → is_space c ≡ false
digit_no_space c h = ground arith

digit_no_comma : (c : ℕ) → is_digit c ≡ true → eqb c b',' ≡ false
digit_no_comma c h = ground arith

strip-digits : (n : ℕ) → strip (digits n) ≡ digits n
strip-digits n =
    strip-IsWord (digits n)
      (All-weaken_to digit_no_space (digits n) (some_of-All is_digit (digits n) (show-digits n)))

digits_lack : (n : ℕ) → Lacks b',' (digits n)
digits_lack n =
    All-weaken_to digit_no_comma (digits n) (some_of-All is_digit (digits n) (show-digits n))

all_lack : (ids : List ℕ) → All (Lacks b',') (map digits ids)
all_lack [] = tt
all_lack (n ∷ ids) = (digits_lack n, all_lack ids)

some_of_nonempty : (p : ℕ → Bool) (s : Codes) → some_of p s ≡ true → is_empty s ≡ false
some_of_nonempty p [] h = cc
some_of_nonempty p (c ∷ s) h = refl

strip_all : (ids : List ℕ) → map strip (map digits ids) ≡ map digits ids
strip_all [] = refl
strip_all (n ∷ ids) = rw (strip-digits n, strip_all ids) refl

keep_all : (ids : List ℕ) → filter (λ s. not (is_empty s)) (map digits ids) ≡ map digits ids
unfolding filter
keep_all [] = refl
keep_all (n ∷ ids) = rw (some_of_nonempty is_digit (digits n) (show-digits n), keep_all ids) refl

-- what the marker of the covered notes reads back as
pub read_ids :
    (n : ℕ) (ids : List ℕ)
    → filter
        (λ s. not (is_empty s))
        (map strip (split b',' (join (b',' ∷ []) (map digits (n ∷ ids)))))
      ≡ map digits (n ∷ ids)
read_ids n ids =
    ap (λ l. filter (λ s. not (is_empty s)) (map strip l))
      (split-join b',' (digits n) (map digits ids) (all_lack (n ∷ ids)))
    ∙ ap (filter (λ s. not (is_empty s))) (strip_all (n ∷ ids))
    ∙ keep_all (n ∷ ids)

pub same_codes_refl : (s : Codes) → same_codes s s ≡ true
same_codes_refl [] = refl
same_codes_refl (c ∷ s) = ground (arith, same_codes_refl s)

pub has_later : (k j : Codes) (s : List Codes) → has k s ≡ true → has k (j ∷ s) ≡ true
has_later k j s h = ground arith

pub subset_later :
    (ks : List Codes) (j : Codes) (s : List Codes) → subset ks s ≡ true → subset ks (j ∷ s) ≡ true
subset_later [] j s h = refl
subset_later (k ∷ ks) j s h = ground (arith, has_later k j s, subset_later ks j s)

-- values joined by commas are a value
some_all-append :
    (p : ℕ → Bool) (s t : Codes)
    → some_of p s ≡ true
    → all_of p t ≡ true
    → some_of p (s ++ t) ≡ true
some_all-append p [] t h k = cc
some_all-append p (c ∷ s) t h k = all_of-append p (c ∷ s) t h k

all_of_some : (p : ℕ → Bool) (s : Codes) → some_of p s ≡ true → all_of p s ≡ true
all_of_some p [] h = cc
all_of_some p (c ∷ s) h = h

abbrev IsValueText : Codes → Type 0
IsValueText s = some_of is_value s ≡ true

join_tail_values :
    (ws : List Codes) → All IsValueText ws → all_of is_value (join_tail (b',' ∷ []) ws) ≡ true
unfolding join_tail
join_tail_values [] h = refl
join_tail_values (w ∷ ws) h =
    all_of-append is_value w (join_tail (b',' ∷ []) ws) (all_of_some is_value w h.0)
      (join_tail_values ws h.1)

join_values :
    (w : Codes) (ws : List Codes)
    → All IsValueText (w ∷ ws)
    → IsValueText (join (b',' ∷ []) (w ∷ ws))
unfolding join
join_values w ws h =
    some_all-append is_value w (join_tail (b',' ∷ []) ws) h.0 (join_tail_values ws h.1)

digits_values : (ids : List ℕ) → All IsValueText (map digits ids)
digits_values [] = tt
digits_values (n ∷ ids) = (digits_value n, digits_values ids)

-- The names that a reply writes into its markers are words that end no marker.
pub record IsPlain (context : MentionContext) (result : MentionExecutionResult) : Type 0 where
  pub run_id : some_of is_value context.run_id ≡ true
  pub head_sha : some_of is_value context.mr_snapshot.head_sha ≡ true
  pub subagents : All (λ s. some_of is_value s ≡ true) result.used_subagents
  pub commit : all_of is_value (or_empty result.commit_sha) ≡ true

subagents-IsReadable :
    (names : List Codes) → All IsValueText names → All IsReadable (subagents_marker names)
subagents-IsReadable [] h = tt
subagents-IsReadable (s ∷ ss) h = ((codes "used-subagents", refl, refl, join_values s ss h), tt)

bool_value : (b : Bool) → IsValueText (bool_name b)
bool_value true = refl
bool_value false = refl

approved-IsReadable : (o : Option Bool) → All IsReadable (approved_marker o)
approved-IsReadable none = tt
approved-IsReadable (some b) = ((codes "review-approved", refl, refl, bool_value b), tt)

rounds-IsReadable : (n : ℕ) → All IsReadable (rounds_marker n)
rounds-IsReadable n = elim (Bool-cases (eqb n 0)) [
  | inl e ↦ rw e tt
  | inr e ↦ rw e ((codes "review-rounds", refl, refl, digits_value n), tt)
]

commit-IsReadable :
    (o : Option Codes) → all_of is_value (or_empty o) ≡ true → All IsReadable (commit_marker o)
commit-IsReadable none h = tt
commit-IsReadable (some []) h = tt
commit-IsReadable (some (c ∷ s)) h = ((codes "commit-sha", refl, refl, h), tt)

intent_value : (k : ReplyKind) → IsValueText (intent_name k)
intent_value reply = refl
intent_value follow_up = refl
intent_value analysis = refl
intent_value code_change = refl

optional-IsReadable :
    (context : MentionContext) (result : MentionExecutionResult)
    → IsPlain context result
    → All IsReadable (optional_markers result)
optional-IsReadable context result p =
    All-append IsReadable (subagents_marker result.used_subagents) _
      (subagents-IsReadable result.used_subagents p.subagents)
      (All-append IsReadable (approved_marker result.review_approved) _
        (approved-IsReadable result.review_approved)
        (All-append IsReadable (rounds_marker result.review_rounds) _
          (rounds-IsReadable result.review_rounds) (commit-IsReadable result.commit_sha p.commit)))

ids_value :
    (ids : List ℕ) (n : ℕ) (rest : List ℕ)
    → ids ≡ n ∷ rest
    → IsValueText (join (b',' ∷ []) (map digits ids))
ids_value ids n rest e = rw e (join_values (digits n) (map digits rest) (digits_values (n ∷ rest)))

pub reply-IsReadable :
    (context : MentionContext) (result : MentionExecutionResult) (n : ℕ) (ids : List ℕ)
    → IsPlain context result
    → ids_or result.covered_note_ids context.covered_note_ids ≡ n ∷ ids
    → All IsReadable (reply_markers context result)
reply-IsReadable context result n ids p e = (
  (codes "mention-run", refl, refl, p.run_id),
  (
    (codes "mention-note", refl, refl, digits_value context.note_id),
    (
      (
        codes "covered-notes",
        refl,
        refl,
        ids_value (ids_or result.covered_note_ids context.covered_note_ids) n ids e,
      ),
      (
        (codes "mention-intent", refl, refl, intent_value result.intent),
        ((codes "head-sha", refl, refl, p.head_sha), optional-IsReadable context result p),
      ),
    ),
  ),
)

-- ===== src/Truth/Notes.antt =====
-- The notes that a research job keeps beside its facts in lead_engine/truth.py: the tables
-- visited_sources and open_questions.
use lead_engine.Prelude.{
  ℕ, ◌+◌, ◌≡◌, refl, Bool, true, false, ◌&&◌, Option, none, some, List, [], ◌∷◌, ◌++◌, arith, ◌==◌,
  ltb, sort_by, Text, text_eq,
}
use lead_engine.Sql.{update_where, select_where, select_one}
use lead_engine.Sql.Keyed.{find_row, find_row-key, find_row-update_where}
use lead_engine.Truth.Rows.{Context, org_of, in_org}
use lead_engine.Truth.{no_organization, Result, ok, err}

pub record Visit : Type 0 where
  pub visit_id : ℕ
  pub organization_id : Option Text
  pub job_id : ℕ
  pub url : Text
  pub title : Option Text
  pub http_status : Option ℕ
  pub summary : Option Text
  pub fetched_at : ℕ

pub data QuestionStatus : Type 0 where
  still_open answered dropped : QuestionStatus

pub record Question : Type 0 where
  pub question_id : ℕ
  pub organization_id : Option Text
  pub job_id : ℕ
  pub subject_kind : Text
  pub subject_id : Option Text
  pub question : Text
  pub status : QuestionStatus
  pub answer_fact_id : Option ℕ
  pub created_at : ℕ
  pub answered_at : Option ℕ

-- `next_visit` and `next_question` are the keys that the tables give to their next rows.
pub record Notes : Type 0 where
  pub visits : List Visit
  pub questions : List Question
  pub next_visit : ℕ
  pub next_question : ℕ

-- What a call says of a visited page.
pub record Page : Type 0 where
  pub url : Text
  pub title : Option Text
  pub http_status : Option ℕ
  pub summary : Option Text

abbrev is_visit : ℕ → Text → Visit → Bool
is_visit job url v = v.job_id == job && text_eq v.url url

abbrev seen_again : Page → ℕ → Visit → Visit
seen_again page now v = record v {
  title = page.title;
  http_status = page.http_status;
  summary = page.summary;
  fetched_at = now;
}

abbrev visit_found : ℕ → Text → Page → ℕ → Notes → Option Visit → Notes
visit_found job org page now n none = record n {
  visits =
      n.visits
      ++ (record {
        visit_id = n.next_visit;
        organization_id = some org;
        job_id = job;
        url = page.url;
        title = page.title;
        http_status = page.http_status;
        summary = page.summary;
        fetched_at = now;
      })
        ∷ [];
  next_visit = n.next_visit + 1;
}
visit_found job org page now n (some v) = record n {
  visits = update_where (λ (x : Visit). x.visit_id == v.visit_id) (seen_again page now) n.visits;
}

abbrev visit_in : Option Text → ℕ → Page → ℕ → Notes → Result (Unit {0}) × Notes
visit_in none job page now n = (err no_organization, n)
visit_in (some org) job page now n =
    (ok tt, visit_found job org page now n (select_one (is_visit job page.url) n.visits))

unfoldable pub add_visit : Context → ℕ → Page → ℕ → Notes → Result (Unit {0}) × Notes
add_visit ctx job page now n = visit_in (org_of ctx) job page now n

unfoldable pub visited : Context → ℕ → Notes → List Visit
visited ctx job n =
    sort_by (λ (a b : Visit). ltb a.fetched_at b.fetched_at)
      (select_where (λ (v : Visit). v.job_id == job && in_org ctx v.organization_id) n.visits)

abbrev question_in : Option Text → ℕ → Text → Text → Option Text → ℕ → Notes → Result ℕ × Notes
question_in none job question kind subject now n = (err no_organization, n)
question_in (some org) job question kind subject now n = (
  ok n.next_question,
  record n {
    questions =
        n.questions
        ++ (record {
          question_id = n.next_question;
          organization_id = some org;
          job_id = job;
          subject_kind = kind;
          subject_id = subject;
          question = question;
          status = still_open;
          answer_fact_id = none;
          created_at = now;
          answered_at = none;
        })
          ∷ [];
    next_question = n.next_question + 1;
  },
)

unfoldable pub add_open_question :
    Context → ℕ → Text → Text → Option Text → ℕ → Notes → Result ℕ × Notes
add_open_question ctx job question kind subject now n =
    question_in (org_of ctx) job question kind subject now n

abbrev pub is_still_open : QuestionStatus → Bool
is_still_open still_open = true
is_still_open _ = false

-- WHERE id = ? AND status = 'OPEN'
abbrev pub can_close : ℕ → Question → Bool
can_close id q = q.question_id == id && is_still_open q.status

abbrev pub answered_row : ℕ → ℕ → Question → Question
answered_row fact now q = record q {
  status = answered;
  answer_fact_id = some fact;
  answered_at = some now;
}

abbrev pub dropped_row : ℕ → Question → Question
dropped_row now q = record q { status = dropped; answered_at = some now }

unfoldable pub answer_open_question : ℕ → ℕ → ℕ → Notes → Notes
answer_open_question id fact now n = record n {
  questions = update_where (can_close id) (answered_row fact now) n.questions;
}

unfoldable pub drop_open_question : ℕ → ℕ → Notes → Notes
drop_open_question id now n = record n {
  questions = update_where (can_close id) (dropped_row now) n.questions;
}

abbrev same_status : QuestionStatus → QuestionStatus → Bool
same_status still_open still_open = true
same_status answered answered = true
same_status dropped dropped = true
same_status _ _ = false

unfoldable pub open_questions : Context → ℕ → QuestionStatus → Notes → List Question
open_questions ctx job status n =
    sort_by (λ (a b : Question). ltb a.question_id b.question_id)
      (select_where
        (λ (q : Question).
          q.job_id == job && (same_status q.status status && in_org ctx q.organization_id))
        n.questions)

abbrev pub question_key : Question → ℕ
question_key q = q.question_id

closed_stays :
    (id : ℕ) (g : Question → Question) (qs : List Question) (q : Question)
    → ((x : Question) → (g x).question_id ≡ x.question_id)
    → find_row question_key id qs ≡ some q
    → is_still_open q.status ≡ false
    → find_row question_key id (update_where (can_close id) g qs) ≡ some q
closed_stays id g qs q k e o =
    let shut : can_close id q ≡ false = ground (arith, o) in
    rw (find_row-update_where question_key (can_close id) g k id qs, e, shut) refl

-- An answer that was given is neither replaced by a later answer nor dropped.
pub answered_stays :
    (id fact other now after : ℕ) (n : Notes) (q : Question)
    → find_row question_key id n.questions ≡ some q
    → q.status ≡ still_open
    → find_row question_key id
        (drop_open_question id after
          (answer_open_question id other after (answer_open_question id fact now n))).questions
      ≡ some (answered_row fact now q)
unfolding answer_open_question drop_open_question
answered_stays id fact other now after n q e o =
    closed_stays id (dropped_row after) _ (answered_row fact now q) (λ x. refl)
      (closed_stays id (answered_row other after) _ (answered_row fact now q) (λ x. refl) first
        refl)
      refl
  where
    may : can_close id q ≡ true
    may = rw o (ground (arith, find_row-key question_key id n.questions q e))

    first :
        find_row question_key id (update_where (can_close id) (answered_row fact now) n.questions)
        ≡ some (answered_row fact now q)
    first =
        rw
          (
            find_row-update_where question_key (can_close id) (answered_row fact now) (λ x. refl) id
                n.questions,
            e,
            may,
          )
          refl

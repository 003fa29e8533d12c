-- ===== src/Tests/Web.antt =====
-- The theorems of the pages, at a small workflow and catalog (crates/server/src/web/pages).
use servcat.Prelude.{
  ℕ, All, zero, suc, String, ◌=ₛ◌, ◌≡◌, refl, true, none, some, List, [], ◌∷◌, ok, arith,
  if◌then◌else◌,
}
use servcat.Prelude.Int.{pos}
use servcat.Json.Sample.{Sample}
use servcat.Prelude.Sorting.{sort_by}
use servcat.Map.{contains_key, insert}
use servcat.Model.Workflow.{InputType, question, WorkflowGraph, step}
use servcat.Model.Catalog.{ServiceCatalogItem, TargetUnit}
use servcat.Model.TargetTime.{format_target}
use servcat.Web.Questions.{QuestionPreview, preview_rounds, preview_questions}
use servcat.Web.Preview.{Asks, preview_questions-Asks}
use servcat.Web.Groups.{build_groups}
use servcat.Web.Grouping.{Grouping, build_groups-Grouping}
use servcat.Web.Forms.{trim, lines_to_vec, parse_i32, parse_target}
use servcat.Web.Targets.{Parsed, parse_target_lem}
use servcat.Web.Links.{bytes, urlencoding_encode, safe_next}
use servcat.Web.Encoded.{in_text, decode, IsLinkCharacter, urlencoding_encode_lem}
use servcat.App.State.{on_auth}
use servcat.Auth.Routes.{confirm_route}
use servcat.Web.Passwords.{submit_reset_password}
use servcat.Web.Resets.{Same, submit_reset_password-confirm_route}
use servcat.Tests.App.{setup, site, site_settings}
use servcat.Tests.Data.{graph, item}

abbrev before_route : String → ℕ
before_route id = if id =ₛ "ask" then 1 else 0

preview_questions-Asks_example :
    (questions : List QuestionPreview) × (preview_questions graph 2 ≡ some questions)
    × Asks graph "ask" questions
preview_questions-Asks_example =
    preview_questions-Asks graph before_route (omega arith, (tt, (tt, (tt, (tt, (tt, tt)))))) 2
      (omega arith)

-- A question that leads to itself.
abbrev again : WorkflowGraph Sample
again = record {
  entry_step_id = "again";
  steps =
      (record {
        id = "again";
        label = "Again?";
        kind = question "again" InputType.text true [] "again";
      })
      ∷ [];
}

-- Its preview never ends.
again_rounds :
    (fuel : ℕ) (questions : List QuestionPreview)
    → preview_rounds again fuel (step again "again") questions ≡ none
unfolding preview_rounds step
again_rounds zero questions = refl
again_rounds (suc fuel) questions = again_rounds fuel _

abbrev printer : ServiceCatalogItem
printer = record item { category = some "Zoo"; name = "Printer" }

abbrev account : ServiceCatalogItem
account = record item { category = some "Accounts & Access"; name = "Account" }

build_groups-Grouping_example :
    Grouping
      (λ s. s)
      (printer ∷ account ∷ item ∷ [])
      (build_groups (λ s. s) (printer ∷ account ∷ item ∷ []))
build_groups-Grouping_example = build_groups-Grouping (λ s. s) (printer ∷ account ∷ item ∷ [])

category_names :
    (build_groups (λ s. s) (printer ∷ account ∷ item ∷ [])).1
    ≡ "Accounts & Access" ∷ "Other" ∷ "Zoo" ∷ []
unfolding build_groups contains_key insert sort_by
category_names = refl

three_days : parse_target " 3 " "business_days" ≡ ok (some (pos 3), some TargetUnit.business_days)
unfolding parse_target
three_days = refl

parse_target_lem_example :
    Parsed (trim " 3 ") (trim "business_days") (parse_target " 3 " "business_days")
parse_target_lem_example = parse_target_lem " 3 " "business_days"

bounds :
    (parse_i32 "2147483648" ≡ none)
    × (parse_i32 "+2147483647" ≡ some (pos 2147483647))
    × (parse_i32 "-0" ≡ some (pos 0))
    × (parse_i32 "+" ≡ none)
unfolding parse_i32
bounds = (refl, refl, refl, refl)

keywords : lines_to_vec "paper\r\n\n  ink \n" ≡ "paper" ∷ "ink" ∷ []
unfolding lines_to_vec
keywords = refl

two_days : format_target (λ n. "2") (pos 48) TargetUnit.hours ≡ "2 days"
unfolding format_target
two_days = refl

urlencoding_encode_lem_example :
    (decode in_text (urlencoding_encode "/requests?q=é&a") ≡ bytes "/requests?q=é&a")
    × All IsLinkCharacter (urlencoding_encode "/requests?q=é&a")
urlencoding_encode_lem_example = urlencoding_encode_lem "/requests?q=é&a"

encoded : urlencoding_encode "a&" ≡ b'a' ∷ b'%' ∷ b'2' ∷ b'6' ∷ []
unfolding urlencoding_encode
encoded = refl

-- A backslash behind the first slash passes.
backslash : safe_next (some "/\\evil.example") ≡ "/\\evil.example"
unfolding safe_next
backslash = refl

other_site : safe_next (some "//evil.example") ≡ "/"
unfolding safe_next
other_site = refl

submit_reset_password-confirm_route_example :
    Same site_settings "p1" (submit_reset_password setup "p1" "a long password" site) (
      on_auth
        (confirm_route setup.crypto setup.tokens setup.byte_length setup.has_mailer "p1"
          "a long password")
        site)
submit_reset_password-confirm_route_example =
    submit_reset_password-confirm_route setup "p1" "a long password" site_settings site refl

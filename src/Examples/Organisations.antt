-- ===== src/Examples/Organisations.antt =====
-- A second organisation beside the example organisation.
use quiblyx.Common.{◌≡◌, refl, ok}
use quiblyx.Model.{Db}
use quiblyx.Control.Organisations.{OrganisationInput, create_org}
use quiblyx.Control.Organisations.Reading.{IsRead, create_org-organisation}
use quiblyx.Control.Organisations.Founding.{IsFounded, create_org-IsGoverned}
use quiblyx.Examples.{noon, start}

abbrev club : OrganisationInput
club = record { name = "Club"; content_days = 0; budget_microusd = 1000000 }

abbrev founded : Db
founded = (create_org noon 5 80 81 club "eve" start).1

create_org_runs : (create_org noon 5 80 81 club "eve" start).0 ≡ ok 5
unfolding create_org
create_org_runs = refl

create_org-IsGoverned_example : IsFounded noon 5 club "eve" start founded
create_org-IsGoverned_example =
    create_org-IsGoverned noon 5 80 81 club "eve" start refl (refl, tt) (λ e. refl, tt)

create_org-organisation_example : IsRead noon 5 club "eve" founded
unfolding create_org
create_org-organisation_example = create_org-organisation noon 5 80 81 club "eve" start founded refl

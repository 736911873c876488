-- ===== src/Apt/Tests/Reports.antt =====
-- addons/bootstrap/apt: a report of dpkg with two rows, and a package that is up to date.
use gdev.Base.{
  String, ◌≡◌, ◌↔◌, refl, true, false, not, ◌||◌, none, some, List, [], ◌∷◌, ◌⊎◌, inl, inr, ◌==◌,
  arith,
}
use gdev.Base.Dict.{lookup}
use gdev.Apt.Text.{Text, has_char}
use gdev.Apt.Stanza.{field}
use gdev.Apt.Cache.{
  Report, command_failed, ok, word_install, word_installed, word_ok, dpkg_installed,
}
use gdev.Apt.Cache.Rows.{Row, version_of, print_rows, installed_of, dpkg_installed-report}
use gdev.Apt.Download.{Options, Package, prep_downloaded_package, prep_downloaded_package-skips}

abbrev vim : Row
vim = record {
  name = 118 ∷ [];
  version = 57 ∷ [];
  want = word_install;
  status = word_installed;
  eflag = word_ok;
}

abbrev removed : Row
removed = record vim { name = 120 ∷ []; status = word_ok }

abbrev rows : List Row
rows = vim ∷ removed ∷ []

abbrev old : Report
old = record { timestamp = 3; versions = [] }

abbrev report : Report
report = record { timestamp = 10; versions = installed_of rows [] }

dpkg_installed-report_example :
    ((name : Text) → field name report.versions ≡ version_of name rows none)
    × (dpkg_installed (some 4) 10 (inr (print_rows rows)) none ≡ (ok report.versions, some report))
    × (dpkg_installed (some 4) 10 (inr (print_rows rows)) (some old)
        ≡ (ok report.versions, some report))
    × (dpkg_installed (some 9) 20 (inl (command_failed "exit 1")) (some report)
        ≡ (ok report.versions, some report))
unfolding has_char
dpkg_installed-report_example =
    dpkg_installed-report rows (some 4) 10 old 9 20 (inl (command_failed "exit 1"))
      (
        ((refl, (refl, (refl, (refl, (refl, tt))))), (refl, (refl, (refl, (refl, (refl, tt)))))),
        ((
          ((refl, (refl, (refl, (refl, (refl, tt))))), (refl, (refl, (refl, (refl, (refl, tt)))))),
          tt,
        )),
      )
      (omega arith) (omega arith)

abbrev gh_package : Package
gh_package = record {
  release = inr "1.0";
  installed = inr (("gh", "1.0") ∷ []);
  newer = λ a b. false;
  acquire_failed = none;
  create_failed = none;
  stream_failed = none;
  close_failed = none;
}

abbrev options : Options
options = record { always_install = false; force_install = some (inr false); sudo_prompt = "" }

prep_downloaded_package-skips_example :
    (prep_downloaded_package gh_package "gh" (some options) ≡ inr ("1.0", true)) ↔ (
      (was : String) × (lookup "gh" (("gh", "1.0") ∷ []) ≡ some was)
      × (options.always_install ≡ false)
      × ((options.force_install ≡ none) ⊎ (options.force_install ≡ some (inr false)))
      × (("1.0" == "" || ("1.0" == was || not (gh_package.newer "1.0" was))) ≡ true))
prep_downloaded_package-skips_example =
    prep_downloaded_package-skips gh_package "gh" "1.0" (("gh", "1.0") ∷ []) (some options) refl
      refl

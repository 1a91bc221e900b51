-- ===== src/Config/NewConfig/Tests.antt =====
-- A file of two sections, and one whose comment holds a later title.
use next_nps.Config.Sections.{FileText, missing}
use next_nps.Config.Titles.{
  index_of, next_index, section_text, get_all_title, find_titles, title_of, title_body,
  has_duplicate, is_seen,
}
use next_nps.Config.Titles.Cuts.{render, titles, IsFile}
use next_nps.Config.NewConfig.{begin_config, load_config}
use next_nps.Config.NewConfig.Order.{of_sections, in_order, load_config-render}
use next_nps.Config.Titles.Found.{IsLined}
use next_nps.Base.{
  Bytes, codes, bytes_beq, has_prefix, split, ◌≡◌, refl, false, none, some, List, [], ◌∷◌, ◌++◌,
  arith,
}

abbrev no_files : Bytes → FileText
no_files name = missing

abbrev two_sections : List (Bytes × Bytes)
two_sections =
    (codes "common", 10 ∷ (codes "vkey=k" ++ (10 ∷ [])))
    ∷ (codes "web", 10 ∷ (codes "host=a.io" ++ (10 ∷ [])))
    ∷ []

two_titles : get_all_title (render two_sections) ≡ (codes "[common]" ∷ codes "[web]" ∷ [], false)
unfolding get_all_title find_titles title_of title_body split has_duplicate is_seen bytes_beq
two_titles = refl

-- The comment's `[web]` is taken for the start of the second section, which is ahead of the first.
abbrev commented : Bytes
commented = codes "# see [web]" ++ (10 ∷ render two_sections)

commented_panics :
    (get_all_title commented ≡ (codes "[common]" ∷ codes "[web]" ∷ [], false))
    × (section_text commented (codes "[common]") (codes "[web]" ∷ []) ≡ none)
unfolding get_all_title find_titles title_of title_body split has_duplicate is_seen bytes_beq
    section_text next_index index_of has_prefix
commented_panics = (refl, refl)

two_sections-IsFile : IsFile two_sections
two_sections-IsFile = (
  (refl, (refl, (refl, (refl, (refl, (refl, tt)))))),
  (refl, (refl, (refl, (refl, (refl, (refl, (refl, (refl, tt)))))))),
  ((λ e. absurd (ground arith)), tt),
  (
    (refl, (refl, (refl, tt))),
    (refl, (refl, (refl, (refl, (refl, (refl, (refl, (refl, (refl, (refl, (refl, tt))))))))))),
    tt,
    tt,
  ),
)

two_sections-IsLined : IsLined two_sections
two_sections-IsLined =
    (((λ e. absurd (ground arith)), refl), (((λ e. absurd (ground arith)), refl), tt))

load_config-render_example :
    load_config false no_files some (some (render two_sections))
    ≡ of_sections (
        in_order false no_files two_sections
          (some (begin_config (render two_sections) (titles two_sections))))
load_config-render_example =
    load_config-render false no_files some (render two_sections) two_sections refl
      two_sections-IsFile two_sections-IsLined

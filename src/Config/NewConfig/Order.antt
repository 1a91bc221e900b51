-- ===== src/Config/NewConfig/Order.antt =====
-- `NewConfig` of lib/config/config.go on a file that is written section by section.
use next_nps.Config.Sections.{FileText}
use next_nps.Config.Titles.Cuts.{
  bracket, render, titles, IsName, IsText, IsFile, Skips, text-Skips, section_text_lem,
  section-Skips,
}
use next_nps.Config.Titles.Found.{IsLined, get_all_title-render}
use next_nps.Config.NewConfig.{
  Config, Loaded, loaded, panic, begin_config, one_section, with_text, sections, finish,
  with_titles, load_config,
}
use next_nps.Base.{
  All, Bytes, ◌≡◌, refl, sym, ap, ◌∙◌, ◌≢◌, Bool, false, Option, none, some, List, [], ◌∷◌, ◌++◌,
  append_assoc,
}

-- What is loaded: the configuration of all sections, or a panic in one of them.
abbrev pub of_sections : Option Config → Loaded
of_sections none = panic
of_sections (some c) = loaded c

-- The sections, each with its own text, one after the other.
module _ (windows : Bool) (files : Bytes → FileText) where
  and_section : Bytes × Bytes → Option Config → Option Config
  and_section (n, b) none = none
  and_section (n, b) (some c) = one_section windows files (bracket n) b c

  pub in_order : List (Bytes × Bytes) → Option Config → Option Config
  in_order [] c = c
  in_order (s ∷ more) c = in_order more (and_section s c)

  with_text_lem :
      (n b : Bytes) (c : Option Config)
      → with_text windows files (bracket n) (some b) c ≡ and_section (n, b) c
  unfolding with_text and_section
  with_text_lem n b none = refl
  with_text_lem n b (some c) = refl

  AllSkips : Bytes → List (Bytes × Bytes) → Type 0
  AllSkips pre secs = All (λ (s : Bytes × Bytes). Skips pre s.0) secs

  all_ready :
      (pre n : Bytes) (more : List (Bytes × Bytes))
      → All (λ (s : Bytes × Bytes). s.0 ≢ n) more
      → AllSkips pre more
      → IsFile more
      → All (λ (s : Bytes × Bytes). (s.0 ≢ n) × Skips pre s.0 × IsName s.0) more
  unfolding AllSkips
  all_ready pre n [] d k f = tt
  all_ready pre n ((m, b) ∷ more) (d, ds) (k, ks) (p, t, e, f) =
      ((d, k, p), all_ready pre n more ds ks f)

  all_further :
      (pre n b : Bytes) (more : List (Bytes × Bytes))
      → IsName n
      → IsText b
      → All (λ (s : Bytes × Bytes). s.0 ≢ n) more
      → AllSkips pre more
      → IsFile more
      → AllSkips (pre ++ (bracket n ++ b)) more
  unfolding AllSkips
  all_further pre n b [] p t d k f = tt
  all_further pre n b ((m, c) ∷ more) p t (d, ds) (k, ks) (q, u, e, f) =
      (section-Skips pre n b m k p t q d, all_further pre n b more p t ds ks f)

  sections_behind :
      (pre : Bytes) (secs : List (Bytes × Bytes)) (c : Option Config)
      → AllSkips pre secs
      → IsFile secs
      → sections windows files (pre ++ render secs) (titles secs) c ≡ in_order secs c
  unfolding sections in_order AllSkips
  sections_behind pre [] c k f = refl
  sections_behind pre ((n, b) ∷ more) c (k, ks) (p, t, d, f) =
      let go = sections windows files in
      let content = pre ++ (bracket n ++ (b ++ render more)) in
      let moved : content ≡ (pre ++ (bracket n ++ b)) ++ render more =
        ap (◌++◌ pre) (sym (append_assoc (bracket n) b (render more)))
        ∙ sym (append_assoc pre (bracket n ++ b) (render more)) in
      ap (λ x. go content (titles more) (with_text windows files (bracket n) x c))
        (section_text_lem pre n b more k p t (all_ready pre n more d ks f))
      ∙ ap (go content (titles more)) (with_text_lem n b c)
      ∙ ap (λ x. go x (titles more) (and_section (n, b) c)) moved
      ∙ sections_behind (pre ++ (bracket n ++ b)) more (and_section (n, b) c)
          (all_further pre n b more p t d ks f) f

  all_at_start : (secs : List (Bytes × Bytes)) → AllSkips [] secs
  unfolding AllSkips
  all_at_start [] = tt
  all_at_start ((n, b) ∷ more) = (text-Skips [] n tt, all_at_start more)

  sections-render :
      (secs : List (Bytes × Bytes)) (c : Option Config)
      → IsFile secs
      → sections windows files (render secs) (titles secs) c ≡ in_order secs c
  sections-render secs c f = sections_behind [] secs c (all_at_start secs) f

  with_titles_lem :
      (content : Bytes) (ts : List Bytes) (c : Option Config)
      → sections windows files content ts (some (begin_config content ts)) ≡ c
      → with_titles windows files content (ts, false) ≡ of_sections c
  unfolding with_titles finish
  with_titles_lem content ts none e = ap (finish windows files) e
  with_titles_lem content ts (some c) e = ap (finish windows files) e

  -- A file is read whose text, once expanded, is a row of sections: names of one byte or more, without
  -- brackets and line ends and all different, and behind each in brackets a text of whole lines in
  -- which no byte opens a bracket. Its titles are these names, in the order of the file, and every
  -- section is read from its own text, all of it and no more, one after the other: where one of them
  -- panics, so does the program, and else what they add up to is the configuration.
  pub load_config-render :
      (parse_str : Bytes → Option Bytes) (b : Bytes) (secs : List (Bytes × Bytes))
      → parse_str b ≡ some (render secs)
      → IsFile secs
      → IsLined secs
      → load_config windows files parse_str (some b)
        ≡ of_sections (in_order secs (some (begin_config (render secs) (titles secs))))
  unfolding load_config
  load_config-render parse_str b secs e f l =
      let begin = begin_config (render secs) (titles secs) in
      rw (load_config, e)
        (ap (with_titles windows files (render secs)) (get_all_title-render secs f l)
          ∙ with_titles_lem (render secs) (titles secs) (in_order secs (some begin))
              (sections-render secs (some begin) f))

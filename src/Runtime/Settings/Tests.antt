-- ===== src/Runtime/Settings/Tests.antt =====
-- runtime/configuration/provider.py: two small documents.
use git_hub_engineering_work.Common.{
  String, ◌==◌, if◌then◌else◌, ◌≡◌, refl, true, false, Option, none, some, inr,
}
use git_hub_engineering_work.Common.Int.{ℤ, pos}
use git_hub_engineering_work.Common.Text.{strip}
use git_hub_engineering_work.Common.Text.Lines.{splitlines, begins, cut}
use git_hub_engineering_work.Common.Outcome.{returned, raised}
use git_hub_engineering_work.Runtime.Settings.{
  Mapping, done, entry, mapping, list, text, switch, int, nothing, finish, item,
  configuration_exception, parse_simple_yaml, parse_lines, parse_line, key_line, close_dicts,
  set_key, list_line, append_to, dict_at, get_setting, put_at, put_setting, extend, parse_scalar,
}
use git_hub_engineering_work.Runtime.Settings.Resolve.{
  resolve_env, resolve_entries, resolve_text, match_variable,
}
use git_hub_engineering_work.Runtime.Settings.Accepts.{IsEntry, parse_simple_yaml-Accepts}
use git_hub_engineering_work.Runtime.Settings.Provider.{Conversions, section, to_configuration}
use git_hub_engineering_work.Runtime.Settings.Load.{
  File, file_data, load_file, load_settings, validate_settings,
}

abbrev only_three : String → Option ℤ
only_three s = if s == "3" then some (pos 3) else none

-- a document with an indentation that closes a dict
abbrev nested : String
nested = "a: # outer\n  b: true\nc: 3\n"

parsed_nested :
    parse_simple_yaml only_three nested
    ≡ returned (entry "a" (mapping (entry "b" (switch true) done)) (entry "c" (int (pos 3)) done))
unfolding parse_simple_yaml parse_lines parse_line key_line close_dicts set_key list_line append_to
    dict_at get_setting put_at put_setting extend parse_scalar
parsed_nested = refl

-- a list that takes the place of an empty dict
parsed_list :
    parse_simple_yaml only_three "a:\n  - 'x y'\n  - 3\n"
    ≡ returned (entry "a" (list (item (text "x y") (item (int (pos 3)) finish))) done)
unfolding parse_simple_yaml parse_lines parse_line key_line close_dicts set_key list_line append_to
    dict_at get_setting put_at put_setting extend parse_scalar
parsed_list = refl

-- a value in quotes with a number sign
cut_template :
    parse_simple_yaml only_three "t: \"Fix issue #{issue_number}: {title}\"\n"
    ≡ returned (entry "t" (text "\"Fix issue") done)
unfolding parse_simple_yaml parse_lines parse_line key_line close_dicts set_key list_line append_to
    dict_at get_setting put_at put_setting extend parse_scalar
cut_template = refl

raised_item :
    parse_simple_yaml only_three "a: 3\n  - x"
    ≡ raised (configuration_exception "List item without parent key")
unfolding parse_simple_yaml parse_lines parse_line key_line close_dicts set_key list_line append_to
    dict_at get_setting put_at put_setting extend parse_scalar
raised_item = refl

parse_simple_yaml-Accepts_example :
    (d : Mapping) × (parse_simple_yaml only_three nested ≡ returned d)
unfolding splitlines IsEntry begins strip cut
parse_simple_yaml-Accepts_example =
    parse_simple_yaml-Accepts only_three nested
      (inr (refl, (_, refl)), (inr (refl, (_, refl)), (inr (refl, (_, refl)), tt)))

abbrev here : String → Option String
here name = if name == "HOME_1" then some "h" else none

-- a variable, a default, a variable that is missing, and a text that is none
resolved_document :
    resolve_env here (
      list (
        item
          (text "${HOME_1:-x}")
          (item (text "${B:-a}b}") (item (text "${B}") (item (text "${1}") finish)))))
    ≡ list (item (text "h") (item (text "a}b") (item nothing (item (text "${1}") finish))))
unfolding resolve_env
resolved_document = refl

abbrev py : Conversions
py = record {
  str_of = λ v. "?";
  int_of = λ v. raised (record { class_name = "ValueError"; text = "" });
  tuple_of = λ v. returned finish;
  dict_of = λ v. returned done;
}

abbrev file_of : String → File
file_of document = record {
  path = "settings.yaml";
  is_os_error = λ e. false;
  content = some (returned document);
}

-- a configuration that leaves no room for an issue, and a section that is a text
raised_parallel :
    load_settings py only_three here (file_of "execution:\n  max_parallel_issues: false\n")
    ≡ raised (configuration_exception "max_parallel_issues must be at least 1")
unfolding load_settings file_data load_file parse_simple_yaml parse_lines parse_line key_line
    close_dicts set_key list_line append_to dict_at get_setting put_at put_setting extend
    parse_scalar resolve_entries resolve_env resolve_text match_variable to_configuration section
    validate_settings
raised_parallel = refl

raised_section :
    load_settings py only_three here (file_of "project: x\n")
    ≡ raised
        (record { class_name = "AttributeError"; text = "'str' object has no attribute 'get'" })
unfolding load_settings file_data load_file parse_simple_yaml parse_lines parse_line key_line
    close_dicts set_key list_line append_to dict_at get_setting put_at put_setting extend
    parse_scalar resolve_entries resolve_env resolve_text match_variable to_configuration section
    validate_settings
raised_section = refl

-- ===== src/Config/Loader/Tests.antt =====
-- A disk of two files, and a toy coding of sites in which a site is its domain.
use proxy_go.Prelude.{
  if◌then◌else◌, length, drop, All, contains, ◌==◌, Text, text_beq, nat_eq, text_eq, ◌+◌, ◌≡◌, refl,
  sym, ap, true, false, ◌&&◌, ◌||◌, Option, none, some, List, [], ◌∷◌, ◌++◌, arith,
}
use proxy_go.Prelude.Int.{pos}
use proxy_go.Dict.{lookup}
use proxy_go.Text.{codes, trim_space, contains_text, last_index}
use proxy_go.Sort.{IsSorted}
use proxy_go.Config.Site.{Site, Url, split_host_port, valid_upstream, validate}
use proxy_go.Config.Loader.{
  Faults, loaded, write_failed, saved, refused, Entry, Disk, file_name, by_domain, save_site,
  load_site_file, load_sites, delete_site,
}
use proxy_go.Config.Loader.Saving.{
  lookup-save_site_refused, load_site_file-save_site, delete_site_lem,
}
use proxy_go.Config.Loader.Loading.{site_files, load_sites_lem}

abbrev never : Text → Option Url
never s = none

abbrev slash : Text → Text → Text
slash dir name = dir ++ b'/' ∷ name

abbrev site_at_domain : Text → Site
site_at_domain domain = record {
  filename = [];
  domain = domain;
  aliases = [];
  upstreams = codes "local:1" ∷ [];
  enabled = true;
  tls = record { auto = true; cert_file = []; key_file = [] };
  http_to_https = true;
  web_socket = false;
  block_common_exploits = true;
  rate_limit = record { enabled = false; rps = pos 0; burst = pos 0 };
  custom_headers = [];
}

abbrev to_text : Site → Option Text
to_text s = some s.domain

abbrev of_text : Text → Option Site
of_text b = some (site_at_domain b)

abbrev read_back : Option Text → Option Site
read_back none = none
read_back (some b) = of_text b

-- the base name of a path below "s/"
abbrev after_dir : Text → Text
after_dir path = drop 2 path

abbrev blog : Site
blog = record (site_at_domain (codes "b.com")) { filename = codes "b.com.yml" }

abbrev disk_of_two : Disk
disk_of_two = (codes "s/a.com.yml", codes "a.com") ∷ (codes "s/bad.yml", []) ∷ []

abbrev fine_disk : Faults
fine_disk = record { write_ok = true; left = []; rename_ok = true }

abbrev full_disk : Faults
full_disk = record { write_ok = false; left = codes "b"; rename_ok = true }

abbrev both_entries : List Entry
both_entries =
    record { name = codes "a.com.yml"; is_dir = false }
    ∷ record { name = codes "bad.yml"; is_dir = false }
    ∷ []

save_test :
    (save_site never slash to_text fine_disk (codes "s") blog disk_of_two).0
    ≡ saved (codes "s/b.com.yml")
unfolding save_site validate trim_space valid_upstream contains_text split_host_port last_index
save_test = refl

full_test :
    (save_site never slash to_text full_disk (codes "s") blog disk_of_two).0 ≡ refused write_failed
unfolding save_site validate trim_space valid_upstream contains_text split_host_port last_index
full_test = refl

lookup-save_site_refused_example :
    lookup
      (codes "s/a.com.yml")
      (save_site never slash to_text full_disk (codes "s") blog disk_of_two).1
    ≡ lookup (codes "s/a.com.yml") disk_of_two
lookup-save_site_refused_example =
    lookup-save_site_refused never slash to_text full_disk (codes "s") (codes "s/a.com.yml") blog
      disk_of_two write_failed full_test (λ e. ground (arith, e))

load_site_file-save_site_example :
    load_site_file never after_dir of_text
      (codes "s/b.com.yml")
      (save_site never slash to_text fine_disk (codes "s") blog disk_of_two).1
    ≡ loaded (record blog { filename = file_name blog })
load_site_file-save_site_example =
    load_site_file-save_site never slash to_text after_dir of_text fine_disk (codes "s")
      (codes "s/b.com.yml") blog disk_of_two (λ b e. sym (ap read_back e)) refl save_test

delete_test : (delete_site slash (codes "s") (codes "a.com.yml") disk_of_two).0 ≡ true
unfolding delete_site lookup text_beq
delete_test = refl

delete_site_lem_test :
    let (done, disk') = delete_site slash (codes "s") (codes "a.com.yml") disk_of_two in
    (lookup (codes "s/bad.yml") disk' ≡ (
      if done && codes "s/bad.yml" == codes "s/a.com.yml"
      then none
      else lookup (codes "s/bad.yml") disk_of_two))
    × ((done && (contains (codes "a.com.yml") b'/' || contains (codes "a.com.yml") 92)) ≡ false)
delete_site_lem_test =
    delete_site_lem slash (codes "s") (codes "a.com.yml") (codes "s/bad.yml") disk_of_two

load_sites_lem_example :
    let (sites, errs) =
      load_sites never after_dir of_text slash (codes "s") (some both_entries) disk_of_two in
    All (λ s. validate never s ≡ none) sites
    × IsSorted by_domain sites
    × (length sites + length errs ≡ site_files both_entries)
load_sites_lem_example =
    load_sites_lem never after_dir of_text slash (codes "s") both_entries disk_of_two

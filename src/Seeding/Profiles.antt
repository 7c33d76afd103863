-- ===== src/Seeding/Profiles.antt =====
-- `profileFor`: the profiles that need no network.
use cvranking.Prelude.{
  ℕ, ◌+◌, ◌*◌, ◌/◌, ◌%◌, min, List, [], ◌∷◌, ◌++◌, length, get_elem?, coalesce, ltb, ◌==◌,
  if◌then◌else◌,
}
use cvranking.Js.Decimal.{decimal}
use cvranking.Js.Number.{scale, round_units, half_up}
use cvranking.Js.Text.{Text, units}
use cvranking.Seeding.Candidates.{serial}

pub record Profile : Type 0 where
  pub name : Text
  pub title : Text
  pub years : ℕ
  pub skills : List Text
  pub impacts : List Text

unfoldable pub first_names : List Text
first_names =
    units "An"
    ∷ units "Binh"
    ∷ units "Chi"
    ∷ units "Duc"
    ∷ units "Giang"
    ∷ units "Hieu"
    ∷ units "Khanh"
    ∷ units "Lan"
    ∷ units "Minh"
    ∷ units "Nam"
    ∷ units "Oanh"
    ∷ units "Phuc"
    ∷ units "Quang"
    ∷ units "Trang"
    ∷ units "Vy"
    ∷ units "Yen"
    ∷ []

unfoldable pub last_names : List Text
last_names =
    units "Nguyen"
    ∷ units "Tran"
    ∷ units "Le"
    ∷ units "Pham"
    ∷ units "Hoang"
    ∷ units "Vo"
    ∷ units "Dang"
    ∷ units "Bui"
    ∷ units "Do"
    ∷ units "Phan"
    ∷ []

-- `names[index % names.length]`, where the index is in range.
unfoldable pub cyclic : List Text → ℕ → Text
cyclic names index = coalesce (get_elem? names (index % length names)) []

unfoldable pub profile_name : ℕ → Text
profile_name index =
    cyclic first_names index
    ++ (units " "
        ++ (cyclic last_names (index / length first_names) ++ (units " " ++ serial index)))

-- `Math.round(total * factor)` for a factor that is written with two decimals.
unfoldable pub share : (hundredths total : ℕ) → ℕ
share hundredths total =
    half_up (round_units (total * round_units (hundredths * scale) 100) 1) scale

unfoldable pub senior : ℕ → Profile
senior index =
    let years = 7 + index % 6 in
    record {
      name = profile_name index;
      title = units "Senior Backend Engineer";
      years = years;
      skills =
          units "Go"
          ∷ units "PostgreSQL"
          ∷ units "Docker"
          ∷ units "Redis"
          ∷ units "REST"
          ∷ units "Kubernetes"
          ∷ units "AWS"
          ∷ units "Microservices"
          ∷ units "Kafka"
          ∷ [];
      impacts =
          (units "Led Go services for "
            ++ (decimal years
                ++ units
                    " years across high-volume APIs, PostgreSQL data models and Redis-backed workflows."))
          ∷ units
              "Improved API latency, database reliability and production observability for recruiter-facing platforms."
          ∷ [];
    }

unfoldable pub skill_variants : List (List Text)
skill_variants =
    (units "Go"
      ∷ units "PostgreSQL"
      ∷ units "Docker"
      ∷ units "Redis"
      ∷ units "REST"
      ∷ units "Kubernetes"
      ∷ units "Microservices"
      ∷ [])
    ∷ (units "Go"
        ∷ units "PostgreSQL"
        ∷ units "Docker"
        ∷ units "Redis"
        ∷ units "REST"
        ∷ units "AWS"
        ∷ units "Kafka"
        ∷ [])
    ∷ (units "Go"
        ∷ units "PostgreSQL"
        ∷ units "Docker"
        ∷ units "REST"
        ∷ units "Kubernetes"
        ∷ units "AWS"
        ∷ [])
    ∷ (units "Go"
        ∷ units "PostgreSQL"
        ∷ units "Redis"
        ∷ units "REST"
        ∷ units "Kubernetes"
        ∷ units "AWS"
        ∷ [])
    ∷ []

unfoldable pub platform : ℕ → Profile
platform index =
    let years = 6 + index % 5 in
    record {
      name = profile_name index;
      title =
          if index % 3 == 0
          then units "Senior Backend Engineer"
          else units "Backend Platform Engineer";
      years = years;
      skills = coalesce (get_elem? skill_variants (index % length skill_variants)) [];
      impacts =
          (decimal years
            ++ units
                " years experience owning Go services, production APIs and platform reliability.")
          ∷ units
              "Strong backend signal with one or two secondary requirements less explicit in the CV."
          ∷ [];
    }

unfoldable pub backend : ℕ → Profile
backend index =
    let years = 4 + index % 4 in
    record {
      name = profile_name index;
      title = units "Backend Engineer";
      years = years;
      skills =
          if index % 2 == 0
          then units "Go"
            ∷ units "PostgreSQL"
            ∷ units "Docker"
            ∷ units "REST"
            ∷ units "Redis"
            ∷ units "CI/CD"
            ∷ []
          else units "Go"
            ∷ units "MySQL"
            ∷ units "Docker"
            ∷ units "REST"
            ∷ units "Kafka"
            ∷ units "Linux"
            ∷ [];
      impacts =
          (decimal years
            ++ units
                " years experience building backend APIs, background jobs and integration services.")
          ∷ units
              "Owned several production services with pragmatic monitoring and release practices."
          ∷ [];
    }

unfoldable pub dev_ops : ℕ → Profile
dev_ops index =
    let years = 5 + index % 5 in
    record {
      name = profile_name index;
      title = units "DevOps Engineer";
      years = years;
      skills =
          units "AWS"
          ∷ units "Kubernetes"
          ∷ units "Docker"
          ∷ units "Terraform"
          ∷ units "Redis"
          ∷ units "Linux"
          ∷ units "CI/CD"
          ∷ [];
      impacts =
          (decimal years
            ++ units
                " years operating cloud infrastructure, Kubernetes clusters and deployment automation.")
          ∷ units
              "Strong production reliability background but less ownership of Go application code."
          ∷ [];
    }

unfoldable pub python_backend : ℕ → Profile
python_backend index =
    let years = 3 + index % 5 in
    record {
      name = profile_name index;
      title = units "Python Backend Engineer";
      years = years;
      skills =
          units "Python"
          ∷ units "PostgreSQL"
          ∷ units "Docker"
          ∷ units "REST"
          ∷ units "FastAPI"
          ∷ units "Redis"
          ∷ units "AWS"
          ∷ [];
      impacts =
          (decimal years
            ++ units
                " years building Python APIs, reporting jobs and PostgreSQL-backed internal tools.")
          ∷ units "Some transferable backend experience but limited direct Go production ownership."
          ∷ [];
    }

unfoldable pub adjacent : ℕ → Profile
adjacent index =
    let years = 2 + index % 4 in
    record {
      name = profile_name index;
      title = if index % 2 == 0 then units "Frontend Developer" else units "QA Analyst";
      years = years;
      skills =
          if index % 2 == 0
          then units "React" ∷ units "TypeScript" ∷ units "CSS" ∷ units "HTML" ∷ units "Git" ∷ []
          else units "Playwright"
            ∷ units "TypeScript"
            ∷ units "API testing"
            ∷ units "Jira"
            ∷ units "Regression testing"
            ∷ [];
      impacts =
          (decimal years ++ units " years experience in adjacent product engineering work.")
          ∷ units
              "Useful collaboration background but few direct backend platform signals for this JD."
          ∷ [];
    }

unfoldable pub profile_for : (index total : ℕ) → Profile
profile_for index total =
    if ltb index (min 6 total)
    then senior index
    else if ltb index (share 16 total)
    then platform index
    else if ltb index (share 45 total)
    then backend index
    else if ltb index (share 65 total)
    then dev_ops index
    else if ltb index (share 84 total)
    then python_backend index
    else adjacent index

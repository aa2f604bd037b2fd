-- ===== src/Agents/Keywords.antt =====
-- agents/registry.py: the keywords of `_keywords_for_profile`, by slug.
use agent_sam.Prelude.{String, List, [], ◌∷◌, ◌==◌, string_eq, if◌then◌else◌, nat_eq, option_eq}

abbrev coding_keywords : List String
coding_keywords = "debug" ∷ "refactor" ∷ "implementation" ∷ "code" ∷ "bugfix" ∷ []

abbrev testing_keywords : List String
testing_keywords = "pytest" ∷ "test" ∷ "ci" ∷ "regression" ∷ "failing test" ∷ []

abbrev research_keywords : List String
research_keywords =
    "latest" ∷ "docs" ∷ "documentation" ∷ "research" ∷ "compare" ∷ "internet" ∷ "online"
    ∷ "web search" ∷ "website" ∷ "browse" ∷ "look up online" ∷ "lookup online" ∷ "news" ∷ "wiki"
    ∷ "article" ∷ []

abbrev planning_keywords : List String
planning_keywords = "roadmap" ∷ "architecture" ∷ "breakdown" ∷ "plan" ∷ []

abbrev operations_keywords : List String
operations_keywords =
    "systemd" ∷ "nginx" ∷ "linux" ∷ "deploy" ∷ "postgres" ∷ "redis" ∷ "qdrant" ∷ "server"
    ∷ "filesystem" ∷ "file system" ∷ "folder" ∷ "file" ∷ "path" ∷ "directory" ∷ "service" ∷ "site"
    ∷ "apache" ∷ "process" ∷ "daemon" ∷ "find on server" ∷ "running process" ∷ "ls " ∷ "list files"
    ∷ "list contents" ∷ "what is in" ∷ "what's in" ∷ "contents of" ∷ "shiva-drive" ∷ "shivadrive"
    ∷ "/var/www" ∷ "/opt" ∷ "/etc" ∷ "working properly" ∷ "test if" ∷ "is it working"
    ∷ "is it running" ∷ "point to" ∷ "domain" ∷ "curl" ∷ "http" ∷ "https" ∷ "port" ∷ "firewall"
    ∷ "ssl" ∷ "certificate" ∷ "not loading" ∷ "not working" ∷ "can't be reached"
    ∷ "connection refused" ∷ "connection timed out" ∷ "timed out" ∷ "err_connection" ∷ "502" ∷ "503"
    ∷ "500" ∷ "bad gateway" ∷ "chrome" ∷ "still not" ∷ "check and fix" ∷ "port forwarding" ∷ "php"
    ∷ "laravel" ∷ "artisan" ∷ "composer" ∷ "pm2" ∷ "node" ∷ "npm" ∷ "ssl" ∷ "certbot"
    ∷ "letsencrypt" ∷ "let's encrypt" ∷ "https" ∷ "certificate" ∷ "do ssl" ∷ "enable ssl"
    ∷ "install ssl" ∷ "mysql" ∷ "database" ∷ "cron" ∷ "crontab" ∷ "apt" ∷ "install" ∷ "pip"
    ∷ "python" ∷ "supervisor" ∷ "permission" ∷ "chmod" ∷ "chown" ∷ "log" ∷ "logs" ∷ "error log" ∷ []

abbrev graphics_keywords : List String
graphics_keywords = "visual" ∷ "brand" ∷ "image" ∷ "video" ∷ "design" ∷ "creative" ∷ []

abbrev data_keywords : List String
data_keywords = "sql" ∷ "analytics" ∷ "report" ∷ "spreadsheet" ∷ "query" ∷ []

abbrev qa_reviewer_keywords : List String
qa_reviewer_keywords = "review" ∷ "final check" ∷ "safety" ∷ "qa" ∷ []

abbrev router_keywords : List String
router_keywords = "route" ∷ "choose agent" ∷ "routing" ∷ []

-- A table from slugs; a slug that is not in it has the empty list.
abbrev lookup_keywords : String → List (String × List String) → List String
lookup_keywords slug [] = []
lookup_keywords slug ((key, found) ∷ rest) =
    let later = lookup_keywords slug rest in if key == slug then found else later

unfoldable pub keywords_for_profile : String → List String
keywords_for_profile slug = lookup_keywords slug (
    ("coding_agent", coding_keywords)
    ∷ ("testing_agent", testing_keywords)
    ∷ ("research_agent", research_keywords)
    ∷ ("planning_agent", planning_keywords)
    ∷ ("server_ops_agent", operations_keywords)
    ∷ ("graphics_agent", graphics_keywords)
    ∷ ("data_agent", data_keywords)
    ∷ ("qa_reviewer_agent", qa_reviewer_keywords)
    ∷ ("router_agent", router_keywords)
    ∷ [])

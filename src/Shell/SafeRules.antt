-- ===== src/Shell/SafeRules.antt =====
-- tools/shell_risk_rules.py: the rules of commands that run without approval.
use agent_sam.Prelude.{List, [], ◌∷◌}
use agent_sam.Shell.Rules.{RiskRule, rule}

unfoldable pub safe_rules : List RiskRule
safe_rules =
    rule "git-read-only" "^git\\s+(status|diff|log|show|branch|rev-parse|fetch\\s+--dry-run)\\b"
      "Read-only git inspection is safe."
    ∷ rule "filesystem-inspection"
        "^(pwd|whoami|id|uname|ls|dir|Get-ChildItem|Get-Location|type|cat|head|tail|find|rg|ripgrep|where|which|stat|du|df|lsof|env|printenv)\\b"
        "Read-only inspection command is safe."
    ∷ rule "process-inspection"
        "^(ps\\s+aux(\\s*\\|\\s*grep\\b.*)?|pgrep\\b.*|Get-Process\\b.*|tasklist\\b.*|ps\\s+-ef(\\s*\\|\\s*grep\\b.*)?)$"
        "Read-only process inspection is safe."
    ∷ rule "network-read-only" "^(ss\\s+|netstat\\s+|ip\\s+(addr|link|route|neigh)|hostname)(.*)?$"
        "Read-only network inspection is safe."
    ∷ rule "curl-read-only" "^curl\\s+(-[sISiLf]*\\s+)?(https?://|http://)"
        "Simple HTTP GET is read-only and safe for web inspection."
    ∷ rule "systemctl-status" "^systemctl\\s+(status|is-active|is-enabled|list-units)\\b"
        "Read-only systemd status inspection is safe."
    ∷ rule "journalctl-read" "^journalctl\\b" "Log reading is safe."
    ∷ rule "grep-read" "^grep\\b" "Read-only text search is safe."
    ∷ rule "python-version" "^(python|python3|py)\\s+--version\\b"
        "Checking the Python version is safe."
    ∷ rule "cd-and-pwd" "^(cd\\s+\\S+\\s*&&\\s*pwd|pwd|echo\\s+\\$PWD)$"
        "Navigating to a directory and printing the path is safe."
    ∷ rule "find-readonly" "^find\\s+" "Read-only filesystem search is safe."
    ∷ rule "ls-variants" "^ls(\\s+-[la]+)?(\\s+\\S+)?$" "Directory listing is safe."
    ∷ rule "cat-readonly" "^cat\\s+" "Read-only file cat is safe."
    ∷ rule "firewall-readonly"
        "^(sudo\\s+)?(iptables\\s+-L|iptables\\s+--list|ufw\\s+status|nft\\s+list)"
        "Read-only firewall inspection is safe."
    ∷ rule "service-readonly"
        "^(systemctl\\s+(status|is-active|is-enabled|list-units|show)|service\\s+\\S+\\s+status|docker\\s+(ps|images|logs|inspect)|kubectl\\s+(get|describe|logs))\\b"
        "Read-only service inspection is safe."
    ∷ rule "piped-read-commands"
        "^(systemctl|service|docker|kubectl|ip|ss|netstat|ps|cat|ls|find|grep|head|tail|wc|sort|uniq|awk|sed\\s+-n|cut|tr|tee)(\\s.*\\|.*)?$"
        "Piped read-only commands are safe."
    ∷ rule "tee-file-creation" "^(sudo\\s+)?tee\\s+" "File creation with tee is safe in admin mode."
    ∷ rule "nginx-test" "^(sudo\\s+)?nginx\\s+-t" "Nginx config test is read-only and safe."
    ∷ rule "certbot-check" "^(sudo\\s+)?certbot\\s+(certificates|--help)"
        "Certbot certificate listing is safe."
    ∷ rule "sudo-read-commands"
        "^sudo\\s+(cat|ls|find|grep|head|tail|ps|ss|netstat|ip|systemctl\\s+(status|list-units|is-active|show)|journalctl|iptables\\s+-L|ufw\\s+status|du|df|lsof)\\b"
        "Sudo read-only commands are safe."
    ∷ rule "systemctl-mutating"
        "^systemctl\\s+(start|stop|restart|reload|enable|disable|daemon-reload)\\b"
        "Service management is safe in admin mode."
    ∷ rule "service-mutating" "^service\\s+\\S+\\s+(start|stop|restart|reload)\\b"
        "Service management is safe in admin mode."
    ∷ rule "ln-symlink" "^ln\\s+" "Creating symlinks is safe in admin mode."
    ∷ rule "rm-targeted" "^rm\\s+(-f\\s+)?/etc/nginx/(sites-enabled|sites-available)/\\S+"
        "Removing specific nginx config files is safe."
    ∷ rule "mkdir-create" "^mkdir\\s+" "Creating directories is safe."
    ∷ rule "cp-copy" "^cp\\s+" "Copying files is safe in admin mode."
    ∷ rule "mv-move" "^mv\\s+" "Moving files is safe in admin mode."
    ∷ rule "chmod-chown" "^(chmod|chown)\\s+" "Permission changes are safe in admin mode."
    ∷ rule "apt-install" "^apt(-get)?\\s+(install|update|upgrade)\\b"
        "Package management is safe in admin mode."
    ∷ rule "certbot-run" "^certbot\\s+" "Certbot SSL management is safe in admin mode."
    ∷ rule "php-artisan" "^php\\s+artisan\\b" "Laravel artisan commands are safe."
    ∷ rule "npm-yarn-commands" "^(npm|yarn|pnpm)\\s+(install|run|build|start)\\b"
        "Node.js package commands are safe in admin mode."
    ∷ rule "composer-commands" "^(composer|php\\s+composer)\\s+(install|update|dump-autoload)\\b"
        "PHP Composer commands are safe in admin mode."
    ∷ rule "git-pull-clone" "^git\\s+(pull|clone|fetch)\\b" "Git fetch operations are safe."
    ∷ rule "curl-write" "^curl\\s+" "Curl requests are safe in admin mode."
    ∷ rule "echo-redirect" "^echo\\s+" "Echo commands are safe."
    ∷ rule "sed-inline" "^sed\\s+" "Sed text processing is safe in admin mode."
    ∷ []

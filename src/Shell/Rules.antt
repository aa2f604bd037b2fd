-- ===== src/Shell/Rules.antt =====
-- tools/shell_risk_rules.py: the blocked rules and the rules that ask for approval. The search for a
-- regular expression is that of Python's `re`, and an argument here.
use agent_sam.Prelude.{String, Bool, List, [], ◌∷◌}

pub record RiskRule : Type 0 where
  pub name : String
  pub pattern : String
  pub reason : String

-- `re.search(pattern, command, re.IGNORECASE) is not None`
abbrev pub Search : Type 0
Search = (pattern command : String) → Bool

abbrev pub matches : Search → RiskRule → String → Bool
matches search r command = search r.pattern command

abbrev pub rule : String → String → String → RiskRule
rule name pattern reason = record { name = name; pattern = pattern; reason = reason }

unfoldable pub blocked_rules : List RiskRule
blocked_rules =
    rule "delete-root-filesystem" "(^|\\s)rm\\s+-rf\\s+/(\\s|$)"
      "Deleting the root filesystem is blocked."
    ∷ rule "format-disk" "(^|\\s)(mkfs(\\.[a-z0-9]+)?|diskpart|fdisk|format)(\\s|$)"
        "Disk formatting commands are blocked."
    ∷ rule "shutdown-host" "(^|\\s)(shutdown|reboot|halt|poweroff)(\\s|$)"
        "Host shutdown and reboot commands are blocked."
    ∷ rule "delete-user" "\\b(userdel|deluser|net\\s+user\\s+[^\\s]+\\s+/delete)\\b"
        "User deletion commands are blocked."
    ∷ rule "secret-exfiltration"
        "((\\.env|id_rsa|id_dsa|\\.ssh|\\.aws|\\.npmrc|\\.pypirc|/etc/shadow|/etc/passwd).*(curl|wget|scp|sftp|ftp|nc|ncat|netcat|Invoke-WebRequest|Invoke-RestMethod))|((curl|wget|scp|sftp|ftp|nc|ncat|netcat|Invoke-WebRequest|Invoke-RestMethod).*(\\.env|id_rsa|id_dsa|\\.ssh|\\.aws|\\.npmrc|\\.pypirc|/etc/shadow|/etc/passwd))"
        "Commands that appear to exfiltrate secrets are blocked."
    ∷ []

unfoldable pub dangerous_rules : List RiskRule
dangerous_rules =
    rule "privilege-escalation" "\\b(sudo|su|doas|runas)\\b"
      "Privilege escalation requires explicit human review."
    ∷ rule "user-management" "\\b(useradd|adduser|usermod|passwd|net\\s+user)\\b"
        "User account changes are dangerous."
    ∷ rule "filesystem-mounting" "\\b(mount|umount|diskutil|chkdsk)\\b"
        "Mount and disk maintenance commands are dangerous."
    ∷ []

unfoldable pub high_risk_rules : List RiskRule
high_risk_rules =
    rule "shell-interpreter" "^(bash|sh|zsh|pwsh|powershell|cmd)(\\s|$)"
      "Invoking an interactive shell requires approval."
    ∷ rule "destructive-file-ops"
        "\\b(rm|del|erase|rmdir|rd|mv|move|copy|cp|xcopy|robocopy|sed\\s+-i|perl\\s+-pi)\\b"
        "Commands that modify or remove files are high risk."
    ∷ rule "service-control"
        "^(systemctl\\s+(start|stop|restart|enable|disable|mask|unmask|daemon-reload)|service\\s+\\S+\\s+(start|stop|restart)|sc\\s+(start|stop|delete)|taskkill|kill\\s|pkill|killall|docker\\s+(run|rm|stop|kill|exec)|kubectl\\s+(apply|delete|scale)|helm\\s+(install|uninstall|upgrade)|terraform\\s+(apply|destroy)|ansible)\\b"
        "Service-mutating and orchestration commands are high risk."
    ∷ rule "git-write-ops"
        "^git\\s+(push|rebase|reset\\s+--hard|clean|stash\\s+drop|stash\\s+clear)\\b"
        "Git commands that rewrite history or publish changes are high risk."
    ∷ rule "permission-changes" "\\b(chmod|chown|takeown|icacls)\\b"
        "Permission changes are high risk."
    ∷ []

unfoldable pub medium_risk_rules : List RiskRule
medium_risk_rules =
    rule "package-management" "^(pip|pip3|uv|poetry|npm|pnpm|yarn|apt|apt-get|brew|choco|winget)\\b"
      "Installing or updating packages requires approval."
    ∷ rule "network-request" "^(curl|wget|Invoke-WebRequest|Invoke-RestMethod)\\b"
        "Network requests require approval."
    ∷ rule "git-mutable-local"
        "^git\\s+(add|commit|merge|pull|checkout|switch|restore|reset|stash|apply)\\b"
        "Git commands that mutate the working copy require approval."
    ∷ []

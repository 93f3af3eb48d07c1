-- ===== src/Drm/Cea/Low.antt =====
-- The first half of `msdisp_edid_cea_modes_1`, drm/msdisp_drm_mode.c.
use lenovo_magicbay_hud_linu.Base.{List, [], ◌∷◌}
use lenovo_magicbay_hud_linu.Drm.Cea.Row.{
  CeaMode, cea, phsync, nhsync, pvsync, nvsync, interlace, dblclk, ratio_4_3, ratio_16_9,
}

-- VICs 1 to 32
unfoldable pub cea_modes_1 : List CeaMode
cea_modes_1 =
    cea 25175 640 656 752 800 480 490 492 525 (nhsync ∷ nvsync ∷ []) ratio_4_3
    ∷ cea 27000 720 736 798 858 480 489 495 525 (nhsync ∷ nvsync ∷ []) ratio_4_3
    ∷ cea 27000 720 736 798 858 480 489 495 525 (nhsync ∷ nvsync ∷ []) ratio_16_9
    ∷ cea 74250 1280 1390 1430 1650 720 725 730 750 (phsync ∷ pvsync ∷ []) ratio_16_9
    ∷ cea 74250 1920 2008 2052 2200 1080 1084 1094 1125 (phsync ∷ pvsync ∷ interlace ∷ [])
        ratio_16_9
    ∷ cea 13500 720 739 801 858 480 488 494 525 (nhsync ∷ nvsync ∷ interlace ∷ dblclk ∷ [])
        ratio_4_3
    ∷ cea 13500 720 739 801 858 480 488 494 525 (nhsync ∷ nvsync ∷ interlace ∷ dblclk ∷ [])
        ratio_16_9
    ∷ cea 13500 720 739 801 858 240 244 247 262 (nhsync ∷ nvsync ∷ dblclk ∷ []) ratio_4_3
    ∷ cea 13500 720 739 801 858 240 244 247 262 (nhsync ∷ nvsync ∷ dblclk ∷ []) ratio_16_9
    ∷ cea 54000 2880 2956 3204 3432 480 488 494 525 (nhsync ∷ nvsync ∷ interlace ∷ []) ratio_4_3
    ∷ cea 54000 2880 2956 3204 3432 480 488 494 525 (nhsync ∷ nvsync ∷ interlace ∷ []) ratio_16_9
    ∷ cea 54000 2880 2956 3204 3432 240 244 247 262 (nhsync ∷ nvsync ∷ []) ratio_4_3
    ∷ cea 54000 2880 2956 3204 3432 240 244 247 262 (nhsync ∷ nvsync ∷ []) ratio_16_9
    ∷ cea 54000 1440 1472 1596 1716 480 489 495 525 (nhsync ∷ nvsync ∷ []) ratio_4_3
    ∷ cea 54000 1440 1472 1596 1716 480 489 495 525 (nhsync ∷ nvsync ∷ []) ratio_16_9
    ∷ cea 148500 1920 2008 2052 2200 1080 1084 1089 1125 (phsync ∷ pvsync ∷ []) ratio_16_9
    ∷ cea 27000 720 732 796 864 576 581 586 625 (nhsync ∷ nvsync ∷ []) ratio_4_3
    ∷ cea 27000 720 732 796 864 576 581 586 625 (nhsync ∷ nvsync ∷ []) ratio_16_9
    ∷ cea 74250 1280 1720 1760 1980 720 725 730 750 (phsync ∷ pvsync ∷ []) ratio_16_9
    ∷ cea 74250 1920 2448 2492 2640 1080 1084 1094 1125 (phsync ∷ pvsync ∷ interlace ∷ [])
        ratio_16_9
    ∷ cea 13500 720 732 795 864 576 580 586 625 (nhsync ∷ nvsync ∷ interlace ∷ dblclk ∷ [])
        ratio_4_3
    ∷ cea 13500 720 732 795 864 576 580 586 625 (nhsync ∷ nvsync ∷ interlace ∷ dblclk ∷ [])
        ratio_16_9
    ∷ cea 13500 720 732 795 864 288 290 293 312 (nhsync ∷ nvsync ∷ dblclk ∷ []) ratio_4_3
    ∷ cea 13500 720 732 795 864 288 290 293 312 (nhsync ∷ nvsync ∷ dblclk ∷ []) ratio_16_9
    ∷ cea 54000 2880 2928 3180 3456 576 580 586 625 (nhsync ∷ nvsync ∷ interlace ∷ []) ratio_4_3
    ∷ cea 54000 2880 2928 3180 3456 576 580 586 625 (nhsync ∷ nvsync ∷ interlace ∷ []) ratio_16_9
    ∷ cea 54000 2880 2928 3180 3456 288 290 293 312 (nhsync ∷ nvsync ∷ []) ratio_4_3
    ∷ cea 54000 2880 2928 3180 3456 288 290 293 312 (nhsync ∷ nvsync ∷ []) ratio_16_9
    ∷ cea 54000 1440 1464 1592 1728 576 581 586 625 (nhsync ∷ nvsync ∷ []) ratio_4_3
    ∷ cea 54000 1440 1464 1592 1728 576 581 586 625 (nhsync ∷ nvsync ∷ []) ratio_16_9
    ∷ cea 148500 1920 2448 2492 2640 1080 1084 1089 1125 (phsync ∷ pvsync ∷ []) ratio_16_9
    ∷ cea 74250 1920 2558 2602 2750 1080 1084 1089 1125 (phsync ∷ pvsync ∷ []) ratio_16_9
    ∷ []

-- VICs 33 to 64
unfoldable pub cea_modes_33 : List CeaMode
cea_modes_33 =
    cea 74250 1920 2448 2492 2640 1080 1084 1089 1125 (phsync ∷ pvsync ∷ []) ratio_16_9
    ∷ cea 74250 1920 2008 2052 2200 1080 1084 1089 1125 (phsync ∷ pvsync ∷ []) ratio_16_9
    ∷ cea 108000 2880 2944 3192 3432 480 489 495 525 (nhsync ∷ nvsync ∷ []) ratio_4_3
    ∷ cea 108000 2880 2944 3192 3432 480 489 495 525 (nhsync ∷ nvsync ∷ []) ratio_16_9
    ∷ cea 108000 2880 2928 3184 3456 576 581 586 625 (nhsync ∷ nvsync ∷ []) ratio_4_3
    ∷ cea 108000 2880 2928 3184 3456 576 581 586 625 (nhsync ∷ nvsync ∷ []) ratio_16_9
    ∷ cea 72000 1920 1952 2120 2304 1080 1126 1136 1250 (phsync ∷ nvsync ∷ interlace ∷ [])
        ratio_16_9
    ∷ cea 148500 1920 2448 2492 2640 1080 1084 1094 1125 (phsync ∷ pvsync ∷ interlace ∷ [])
        ratio_16_9
    ∷ cea 148500 1280 1720 1760 1980 720 725 730 750 (phsync ∷ pvsync ∷ []) ratio_16_9
    ∷ cea 54000 720 732 796 864 576 581 586 625 (nhsync ∷ nvsync ∷ []) ratio_4_3
    ∷ cea 54000 720 732 796 864 576 581 586 625 (nhsync ∷ nvsync ∷ []) ratio_16_9
    ∷ cea 27000 720 732 795 864 576 580 586 625 (nhsync ∷ nvsync ∷ interlace ∷ dblclk ∷ [])
        ratio_4_3
    ∷ cea 27000 720 732 795 864 576 580 586 625 (nhsync ∷ nvsync ∷ interlace ∷ dblclk ∷ [])
        ratio_16_9
    ∷ cea 148500 1920 2008 2052 2200 1080 1084 1094 1125 (phsync ∷ pvsync ∷ interlace ∷ [])
        ratio_16_9
    ∷ cea 148500 1280 1390 1430 1650 720 725 730 750 (phsync ∷ pvsync ∷ []) ratio_16_9
    ∷ cea 54000 720 736 798 858 480 489 495 525 (nhsync ∷ nvsync ∷ []) ratio_4_3
    ∷ cea 54000 720 736 798 858 480 489 495 525 (nhsync ∷ nvsync ∷ []) ratio_16_9
    ∷ cea 27000 720 739 801 858 480 488 494 525 (nhsync ∷ nvsync ∷ interlace ∷ dblclk ∷ [])
        ratio_4_3
    ∷ cea 27000 720 739 801 858 480 488 494 525 (nhsync ∷ nvsync ∷ interlace ∷ dblclk ∷ [])
        ratio_16_9
    ∷ cea 108000 720 732 796 864 576 581 586 625 (nhsync ∷ nvsync ∷ []) ratio_4_3
    ∷ cea 108000 720 732 796 864 576 581 586 625 (nhsync ∷ nvsync ∷ []) ratio_16_9
    ∷ cea 54000 720 732 795 864 576 580 586 625 (nhsync ∷ nvsync ∷ interlace ∷ dblclk ∷ [])
        ratio_4_3
    ∷ cea 54000 720 732 795 864 576 580 586 625 (nhsync ∷ nvsync ∷ interlace ∷ dblclk ∷ [])
        ratio_16_9
    ∷ cea 108000 720 736 798 858 480 489 495 525 (nhsync ∷ nvsync ∷ []) ratio_4_3
    ∷ cea 108000 720 736 798 858 480 489 495 525 (nhsync ∷ nvsync ∷ []) ratio_16_9
    ∷ cea 54000 720 739 801 858 480 488 494 525 (nhsync ∷ nvsync ∷ interlace ∷ dblclk ∷ [])
        ratio_4_3
    ∷ cea 54000 720 739 801 858 480 488 494 525 (nhsync ∷ nvsync ∷ interlace ∷ dblclk ∷ [])
        ratio_16_9
    ∷ cea 59400 1280 3040 3080 3300 720 725 730 750 (phsync ∷ pvsync ∷ []) ratio_16_9
    ∷ cea 74250 1280 3700 3740 3960 720 725 730 750 (phsync ∷ pvsync ∷ []) ratio_16_9
    ∷ cea 74250 1280 3040 3080 3300 720 725 730 750 (phsync ∷ pvsync ∷ []) ratio_16_9
    ∷ cea 297000 1920 2008 2052 2200 1080 1084 1089 1125 (phsync ∷ pvsync ∷ []) ratio_16_9
    ∷ cea 297000 1920 2448 2492 2640 1080 1084 1089 1125 (phsync ∷ pvsync ∷ []) ratio_16_9
    ∷ []
